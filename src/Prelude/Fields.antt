-- ===== src/Prelude/Fields.antt =====
-- Byte strings one after the other, each ended by a zero: an encoding for concrete runs.
use Prim.Native.Nat.{ℕ, zero, suc}
use mathlib.Core.Path.{◌≡◌, refl, ap, ◌∙◌}
use mathlib.Core.Bool.{Bool, true, false}
use mathlib.Core.List.{List, [], ◌∷◌}
use nkn_sdk_rust.Prelude.Words.{Bytes}
use nkn_sdk_rust.Prelude.Int.{ℤ, pos, negsuc}

abbrev pub field : Bytes → Bytes → Bytes
field [] rest = 0 ∷ rest
field (b ∷ bs) rest = suc b ∷ field bs rest

abbrev pub pack : List Bytes → Bytes
pack [] = []
pack (f ∷ fs) = field f (pack fs)

abbrev pub put : ℕ → List Bytes → List Bytes
put b [] = (b ∷ []) ∷ []
put b (f ∷ fs) = (b ∷ f) ∷ fs

abbrev pub unpack : Bytes → List Bytes
unpack [] = []
unpack (zero ∷ bs) = [] ∷ unpack bs
unpack (suc b ∷ bs) = put b (unpack bs)

unpack-field : (f rest : Bytes) → unpack (field f rest) ≡ f ∷ unpack rest
unpack-field [] rest = refl
unpack-field (b ∷ bs) rest = ap (put b) (unpack-field bs rest)

pub unpack-pack : (fs : List Bytes) → unpack (pack fs) ≡ fs
unpack-pack [] = refl
unpack-pack (f ∷ fs) = unpack-field f (pack fs) ∙ ap (λ gs. f ∷ gs) (unpack-pack fs)

abbrev pub as_nat : Bytes → ℕ
as_nat [] = 0
as_nat (n ∷ more) = n

abbrev pub get : ℕ → List Bytes → Bytes
get i [] = []
get zero (f ∷ fs) = f
get (suc i) (f ∷ fs) = get i fs

abbrev pub int : ℤ → Bytes
int (pos n) = n ∷ []
int (negsuc n) = 0 ∷ n ∷ []

abbrev pub as_int : Bytes → ℤ
as_int [] = pos 0
as_int (n ∷ []) = pos n
as_int (m ∷ n ∷ more) = negsuc n

pub as_int-int : (z : ℤ) → as_int (int z) ≡ z
as_int-int (pos n) = refl
as_int-int (negsuc n) = refl

abbrev pub flag : Bool → Bytes
flag true = 1 ∷ []
flag false = []

abbrev pub as_flag : Bytes → Bool
as_flag [] = false
as_flag (b ∷ bs) = true

pub as_flag-flag : (b : Bool) → as_flag (flag b) ≡ b
as_flag-flag true = refl
as_flag-flag false = refl
