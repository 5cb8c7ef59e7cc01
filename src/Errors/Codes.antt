-- ===== src/Errors/Codes.antt =====
-- `NKNError::from` of src/error.rs against the values of its enumeration.
use nkn_sdk_rust.Prelude.{◌≡◌}
use nkn_sdk_rust.Prelude.Int.{ℤ}
use nkn_sdk_rust.Errors.{NknError, discriminant}

-- Arms whose error has the code of its arm.
abbrev IsOwn : ℤ × NknError → Type 0
IsOwn (code, error) = discriminant error ≡ code
