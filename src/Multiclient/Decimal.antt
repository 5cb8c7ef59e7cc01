-- ===== src/Multiclient/Decimal.antt =====
-- The decimal text of a number in src/utils.rs.
use nkn_sdk_rust.Prelude.{
  ℕ, zero, suc, ◌+◌, ◌-◌, ◌*◌, ◌/◌, ◌%◌, ◌^◌, ◌<◌, ◌≡◌, refl, sym, ap, ◌∙◌, ltb, [], ◌∷◌, ◌++◌,
  Bytes, arith, Bool-cases, inl, inr, All,
}
use native.Mathlib.Nat.{pow-suc}
use nkn_sdk_rust.Multiclient.{decimal_digits, decimal}

-- Reading digits after the number that was read so far.
abbrev read_digits : ℕ → Bytes → ℕ
read_digits n [] = n
read_digits n (d ∷ ds) = read_digits (n * 10 + (d - 48)) ds

read_digits-append :
    (n : ℕ) (xs ys : Bytes) → read_digits n (xs ++ ys) ≡ read_digits (read_digits n xs) ys
read_digits-append n [] ys = refl
read_digits-append n (x ∷ xs) ys = read_digits-append (n * 10 + (x - 48)) xs ys

read_digits-decimal_digits : (k n : ℕ) → n < 10 ^ suc k → read_digits 0 (decimal_digits k n) ≡ n
unfolding decimal_digits
read_digits-decimal_digits zero n fits = omega (arith, fits)
read_digits-decimal_digits (suc k) n fits = elim (Bool-cases (ltb n 10)) [
  | inl small ↦ rw small (omega arith)
  | inr large ↦
      let smaller : n / 10 < 10 ^ suc k = omega (arith, fits, pow-suc 10 (suc k)) in
      rw large (
        read_digits-append 0 (decimal_digits k (n / 10)) ((48 + n % 10) ∷ [])
        ∙ ap (λ v. read_digits v ((48 + n % 10) ∷ []))
            (read_digits-decimal_digits k (n / 10) smaller)
        ∙ omega arith)
]

pub decimal_injective : (m n : ℕ) → m < 2 ^ 31 → n < 2 ^ 31 → decimal m ≡ decimal n → m ≡ n
unfolding decimal
decimal_injective m n fits fits' same =
    sym (read_digits-decimal_digits 9 m (omega (arith, fits)))
    ∙ ap (read_digits 0) same
    ∙ read_digits-decimal_digits 9 n (omega (arith, fits'))

-- No digit is a dot or a backslash.
abbrev pub IsDigit : ℕ → Type 0
IsDigit d = (47 < d) × (d < 58)

All-append : (xs ys : Bytes) → All IsDigit xs → All IsDigit ys → All IsDigit (xs ++ ys)
All-append [] ys h k = k
All-append (x ∷ xs) ys h k = (h.0, All-append xs ys h.1 k)

decimal_digits-IsDigit : (k n : ℕ) → All IsDigit (decimal_digits k n)
unfolding decimal_digits
decimal_digits-IsDigit zero n = ((omega arith, omega arith), tt)
decimal_digits-IsDigit (suc k) n = elim (Bool-cases (ltb n 10)) [
  | inl small ↦ rw small ((omega arith, ground (arith, small)), tt)
  | inr large ↦ rw large (
      All-append (decimal_digits k (n / 10)) ((48 + n % 10) ∷ [])
        (decimal_digits-IsDigit k (n / 10)) ((omega arith, omega arith), tt))
]

pub decimal-IsDigit : (n : ℕ) → All IsDigit (decimal n)
unfolding decimal
decimal-IsDigit n = decimal_digits-IsDigit 9 n
