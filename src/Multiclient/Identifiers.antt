-- ===== src/Multiclient/Identifiers.antt =====
-- The addresses of the clients of src/multiclient.rs.
use nkn_sdk_rust.Prelude.{
  ℕ, zero, suc, ◌+◌, ◌^◌, ◌<◌, ◌≡◌, ◌≢◌, refl, sym, ap, ◌∙◌, List, [], ◌∷◌, ◌++◌, Bytes, arith,
  Bool, Bool-cases, inl, inr, true, false, All, IsU8, length, length-append, ok, IsIn, here, there,
}
use nkn_sdk_rust.Prelude.Int.{ℤ, pos, negsuc, ◌+ℤ◌, ltb_ℤ, ◌≤ℤ◌, +ℤ_parts}
use mathlib.Core.List.{append_cancel_right}
use nkn_sdk_rust.Addresses.Crates.{Crypto}
use nkn_sdk_rust.Addresses.{add_identifier_prefix, parse_client_address, dot}
use nkn_sdk_rust.Addresses.Parsing.{parse_client_address-make_address_string}
use nkn_sdk_rust.Multiclient.{
  decimal, identifier_tag, add_identifier, client_ids_from, first_id, client_ids, sub_address,
}
use nkn_sdk_rust.Multiclient.Decimal.{decimal_injective}

identifier_tag-injective :
    (m n : ℕ) → m < 2 ^ 31 → n < 2 ^ 31 → identifier_tag m ≡ identifier_tag n → m ≡ n
unfolding identifier_tag
identifier_tag-injective m n fits fits' same =
    let rest : decimal m ++ (b'_' ∷ b'_' ∷ []) ≡ decimal n ++ (b'_' ∷ b'_' ∷ []) = cc in
    decimal_injective m n fits fits'
      (append_cancel_right (decimal m) (decimal n) (b'_' ∷ b'_' ∷ []) rest)

-- A number of an `i32` from -1 on.
abbrev pub IsClientId : ℤ → Type 0
IsClientId (pos n) = n < 2 ^ 31
IsClientId (negsuc n) = n ≡ 0

pub prefix-append :
    (base : Bytes) (n : ℕ)
    → base ≢ []
    → add_identifier base (pos n) ≡ identifier_tag n ++ (dot ∷ base)
unfolding add_identifier add_identifier_prefix identifier_tag
prefix-append [] n some_base = absurd (some_base refl)
prefix-append (b ∷ bs) n some_base = refl

prefix-empty : (n : ℕ) → add_identifier [] (pos n) ≡ identifier_tag n
unfolding add_identifier add_identifier_prefix identifier_tag
prefix-empty n = refl

tag_nonempty : (n : ℕ) → identifier_tag n ≢ []
unfolding identifier_tag
tag_nonempty n same = absurd (cc)

longer : (base : Bytes) (n : ℕ) → add_identifier base (pos n) ≢ base
longer [] n same = absurd (tag_nonempty n (sym (prefix-empty n) ∙ same))
longer (b ∷ bs) n same =
    let sizes = ap length (sym (prefix-append (b ∷ bs) n (λ e. absurd (cc))) ∙ same) in
    absurd (omega (arith, sizes, length-append (identifier_tag n) (dot ∷ b ∷ bs)))

add_identifier-injective :
    (base : Bytes) (i j : ℤ)
    → IsClientId i
    → IsClientId j
    → add_identifier base i ≡ add_identifier base j
    → i ≡ j
unfolding add_identifier
add_identifier-injective base (negsuc m) (negsuc n) hi hj same = rw (hi, hj) refl
add_identifier-injective base (negsuc m) (pos n) hi hj same = absurd (longer base n (sym same))
add_identifier-injective base (pos m) (negsuc n) hi hj same = absurd (longer base m same)
add_identifier-injective [] (pos m) (pos n) hi hj same =
    ap pos (identifier_tag-injective m n hi hj (sym (prefix-empty m) ∙ same ∙ prefix-empty n))
add_identifier-injective (b ∷ bs) (pos m) (pos n) hi hj same =
    let some_base : (b ∷ bs) ≢ [] = λ e. absurd (cc) in
    ap pos (
      identifier_tag-injective m n hi hj (
        append_cancel_right (identifier_tag m) (identifier_tag n) (dot ∷ b ∷ bs)
          (sym (prefix-append (b ∷ bs) m some_base) ∙ same ∙ prefix-append (b ∷ bs) n some_base)))

-- The numbers that `MultiClient::new` gives to its clients.
step_range :
    (i k : ℤ) (num : ℕ) (more : List ℤ)
    → ltb_ℤ i (pos num) ≡ true
    → (IsIn k more → (ltb_ℤ k (pos num) ≡ true) × ((i +ℤ pos 1) ≤ℤ k))
    → IsIn k (i ∷ more)
    → (ltb_ℤ k (pos num) ≡ true) × (i ≤ℤ k)
step_range i k num more below rest (here e) = (rw (sym e) below, rw (sym e) (omega arith))
step_range i k num more below rest (there t) =
    let (below_k, after) = rest t in (below_k, omega (arith, after, +ℤ_parts i (pos 1)))

in_range :
    (fuel : ℕ) (i : ℤ) (num : ℕ) (k : ℤ)
    → IsIn k (client_ids_from fuel i (pos num))
    → (ltb_ℤ k (pos num) ≡ true) × (i ≤ℤ k)
in_range zero i num k h = elim h [ ]
in_range (suc fuel) i num k h = elim (Bool-cases (ltb_ℤ i (pos num))) [
  | inl more ↦
      step_range i k num (client_ids_from fuel (i +ℤ pos 1) (pos num)) more
        (λ t. in_range fuel (i +ℤ pos 1) num k t) (rw more at h)
  | inr done ↦ let none_left : IsIn k [] = rw done at h in elim none_left [ ]
]

range-IsClientId :
    (k : ℤ) (num : ℕ) → num < 2 ^ 31 → ltb_ℤ k (pos num) ≡ true → negsuc 0 ≤ℤ k → IsClientId k
range-IsClientId (pos n) num fits below above = ground (arith, below, fits)
range-IsClientId (negsuc n) num fits below above = omega (arith, above)

from_first : (original : Bool) (k : ℤ) → first_id original ≤ℤ k → negsuc 0 ≤ℤ k
from_first true k h = h
from_first false k h = omega (arith, h)

client_ids-IsClientId :
    (original : Bool) (num : ℕ) (k : ℤ)
    → num < 2 ^ 31
    → IsIn k (client_ids original num)
    → IsClientId k
unfolding client_ids
client_ids-IsClientId original num k fits h =
    let (below, above) = in_range (num + 2) (first_id original) num k h in
    range-IsClientId k num fits below (from_first original k above)

module _ (c : Crypto) where
  -- The clients that `MultiClient::new` makes of an account have addresses of their own: two with the same
  -- address are the same client. Each address is that of the account's key, with an identifier that tells
  -- the number of the client.
  pub sub_address-injective :
      (public_key base : Bytes) (original : Bool) (num : ℕ) (i j : ℤ)
      → All IsU8 public_key
      → length public_key ≡ 32
      → num < 2 ^ 31
      → IsIn i (client_ids original num)
      → IsIn j (client_ids original num)
      → sub_address c public_key base i ≡ sub_address c public_key base j
      → (i ≡ j)
        × (parse_client_address c (sub_address c public_key base i)
            ≡ ok (c.sha256 (sub_address c public_key base i), (public_key, add_identifier base i)))
  unfolding sub_address
  sub_address-injective public_key base original num i j bytes size fits hi hj same =
      let parses =
        parse_client_address-make_address_string c public_key (add_identifier base i) bytes size in
      let parses' =
        parse_client_address-make_address_string c public_key (add_identifier base j) bytes size in
      let both = sym parses ∙ ap (parse_client_address c) same ∙ parses' in
      let one : add_identifier base i ≡ add_identifier base j = cc in
      (
        add_identifier-injective base i j (client_ids-IsClientId original num i fits hi)
            (client_ids-IsClientId original num j fits hj) one,
        parses,
      )
