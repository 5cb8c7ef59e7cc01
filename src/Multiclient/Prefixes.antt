-- ===== src/Multiclient/Prefixes.antt =====
-- The prefixes of src/utils.rs on destinations: put before an address, and taken off.
use nkn_sdk_rust.Prelude.{
  ℕ, ◌==◌, ◌≡◌, ◌≢◌, refl, sym, ap, ◌∙◌, List, [], ◌∷◌, ◌++◌, Bytes, arith, Bool, Bool-cases, inl,
  inr, true, false, All, ok, some, get_elem?, >>=-eq-ok,
}
use nkn_sdk_rust.Prelude.Int.{pos}
use nkn_sdk_rust.Addresses.Crates.{Crypto}
use nkn_sdk_rust.Addresses.{dot, cut, last, init, join, hex_key, parse_client_address}
use nkn_sdk_rust.Multiclient.{decimal, identifier_tag, add_identifier, remove_identifier}
use nkn_sdk_rust.Multiclient.Decimal.{IsDigit, decimal-IsDigit}
use nkn_sdk_rust.Multiclient.Identifiers.{prefix-append}

IsNoDot : ℕ → Type 0
IsNoDot b = (b == dot) ≡ false

no_dots : (ds : Bytes) → All IsDigit ds → All IsNoDot (ds ++ (b'_' ∷ b'_' ∷ []))
unfolding IsNoDot
no_dots [] h = (refl, (refl, tt))
no_dots (d ∷ ds) h = (ground (arith, h.0.0), no_dots ds h.1)

tag-IsNoDot : (n : ℕ) → All IsNoDot (identifier_tag n)
unfolding identifier_tag IsNoDot
tag-IsNoDot n = (refl, (refl, no_dots (decimal n) (decimal-IsDigit n)))

-- A piece without dots is cut off whole.
cut-append :
    (front tail : Bytes)
    → All IsNoDot front
    → cut (front ++ (dot ∷ tail)) ≡ (front, (cut tail).0 ∷ (cut tail).1)
unfolding IsNoDot
cut-append [] tail h = refl
cut-append (b ∷ bs) tail h = rw (cut-append bs tail h.1) (rw h.0 refl)

cut_prefix :
    (addr : Bytes) (n : ℕ)
    → addr ≢ []
    → cut (add_identifier addr (pos n)) ≡ (identifier_tag n, (cut addr).0 ∷ (cut addr).1)
cut_prefix addr n some_addr =
    ap cut (prefix-append addr n some_addr) ∙ cut-append (identifier_tag n) addr (tag-IsNoDot n)

some_tells : {m n : ℕ} → some m ≡ some n → m ≡ n
some_tells e = cc

first_no_backslash :
    (ds : Bytes) → All IsDigit ds → get_elem? (ds ++ (b'_' ∷ b'_' ∷ [])) 0 ≢ some 92
first_no_backslash [] h e = let e' : 95 ≡ 92 = some_tells e in absurd (omega (arith, e'))
first_no_backslash (d ∷ ds) h e =
    let e' : d ≡ 92 = some_tells e in absurd (omega (arith, e', h.0.1))

third_no_backslash : (n : ℕ) → get_elem? (identifier_tag n) 2 ≢ some 92
unfolding identifier_tag
third_no_backslash n = first_no_backslash (decimal n) (decimal-IsDigit n)

module _ (c : Crypto) where
  parse_pieces :
      (addr first : Bytes) (others : List Bytes) {key : Bytes}
      → cut addr ≡ (first, others)
      → hex_key c (last first others) ≡ ok key
      → parse_client_address c addr ≡ ok (c.sha256 addr, (key, join (init first others)))
  unfolding parse_client_address
  parse_pieces addr first others pieces is_key = rw pieces (rw is_key refl)

  -- A destination keeps its public key under the prefix of a client of the other side.
  parse_client_address-add_identifier :
      (addr : Bytes) (n : ℕ) {hash key identifier : Bytes}
      → addr ≢ []
      → parse_client_address c addr ≡ ok (hash, (key, identifier))
      → (identifier' : Bytes) × (parse_client_address c (add_identifier addr (pos n))
          ≡ ok (c.sha256 (add_identifier addr (pos n)), (key, identifier')))
  unfolding parse_client_address
  parse_client_address-add_identifier addr n {key = key'} some_addr parsed =
      let (key, is_key, rest) = >>=-eq-ok (hex_key c (last (cut addr).0 (cut addr).1)) _ parsed in
      let same : key ≡ key' = cc in
      (
        _,
        parse_pieces (add_identifier addr (pos n)) (identifier_tag n) ((cut addr).0 ∷ (cut addr).1)
            (cut_prefix addr n some_addr) (rw (sym same) is_key),
      )

-- `remove_identifier` takes off none of the prefixes that `add_identifier` puts before an address: its
-- expression, a raw text with two backslashes, asks for a backslash where the prefix has a digit.
pub remove_identifier-add_identifier :
    (is_match : Bytes → Bool) (addr : Bytes) (n : ℕ)
    → ((text : Bytes) → is_match text ≡ true → get_elem? text 2 ≡ some 92)
    → addr ≢ []
    → remove_identifier is_match (add_identifier addr (pos n)) ≡ (add_identifier addr (pos n), [])
unfolding remove_identifier
remove_identifier-add_identifier is_match addr n backslash some_addr =
    rw (cut_prefix addr n some_addr) (elim (Bool-cases (is_match (identifier_tag n))) [
      | inl matches ↦ absurd (third_no_backslash n (backslash (identifier_tag n) matches))
      | inr other ↦ rw other refl
    ])
