-- ===== src/Errors/Runs.antt =====
-- `NKNError::from` of src/error.rs at some codes.
use nkn_sdk_rust.Prelude.{◌≡◌, refl, panicked}
use nkn_sdk_rust.Prelude.Int.{pos}
use nkn_sdk_rust.Errors.{from, match_arm}

-- A code between two of the list that has no arm.
from_45014 : from (pos 45014) ≡ panicked
unfolding from match_arm
from_45014 = refl
