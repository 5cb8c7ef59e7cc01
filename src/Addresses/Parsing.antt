-- ===== src/Addresses/Parsing.antt =====
-- Addresses of src/utils.rs that are put together and taken apart again.
use nkn_sdk_rust.Prelude.{
  ℕ, ◌==◌, ◌≡◌, refl, ap, ◌∙◌, List, [], ◌∷◌, ◌++◌, ok, Bytes, length, false, All, IsU8, arith, inl,
  inr, Bool-cases,
}
use nkn_sdk_rust.Addresses.Crates.{Crypto}
use nkn_sdk_rust.Addresses.{
  dot, cut, last, init, join, hex_key, make_address_string, parse_client_address,
}

cut_no_dot : (bs : Bytes) → All (λ b. (b == dot) ≡ false) bs → cut bs ≡ (bs, [])
cut_no_dot [] h = refl
cut_no_dot (b ∷ bs) h = rw (cut_no_dot bs h.1) (rw h.0 refl)

join-∷ : (b : ℕ) (f : Bytes) (rest : List Bytes) → join ((b ∷ f) ∷ rest) ≡ b ∷ join (f ∷ rest)
join-∷ b f [] = refl
join-∷ b f (x ∷ xs) = refl

-- A text that was cut is its pieces joined.
pub join-cut : (bs : Bytes) → let (first, others) = cut bs in join (first ∷ others) ≡ bs
join-cut [] = refl
join-cut (b ∷ bs) = elim (Bool-cases (b == dot)) [
  | inl h ↦ rw h (rw (join-cut bs) (ap (λ c. c ∷ bs) (ground arith)))
  | inr h ↦ rw h (join-∷ b (cut bs).0 (cut bs).1 ∙ ap (◌∷◌ b) (join-cut bs))
]

-- The pieces of a text before a dot and a last piece.
record IsPieced (front tail : Bytes) : Type 0 where
  head : Bytes
  next : Bytes
  more : List Bytes
  pieces : cut (front ++ (dot ∷ tail)) ≡ (head, next ∷ more)
  ends : last next more ≡ tail
  starts : join (head ∷ init next more) ≡ front

append_dot-IsPieced :
    (front tail : Bytes) → All (λ b. (b == dot) ≡ false) tail → IsPieced front tail
append_dot-IsPieced [] tail h = record {
  head = [];
  next = tail;
  more = [];
  pieces = rw (cut_no_dot tail h) refl;
  ends = refl;
  starts = refl;
}
append_dot-IsPieced (b ∷ bs) tail h =
    let i = append_dot-IsPieced bs tail h in
    elim (Bool-cases (b == dot)) [
      | inl is_dot ↦ record {
        head = [];
        next = i.head;
        more = i.next ∷ i.more;
        pieces = rw i.pieces (rw is_dot refl);
        ends = i.ends;
        starts = rw i.starts (ap (λ c. c ∷ bs) (ground arith));
      }
      | inr other ↦ record {
        head = b ∷ i.head;
        next = i.next;
        more = i.more;
        pieces = rw i.pieces (rw other refl);
        ends = i.ends;
        starts = join-∷ b i.head (init i.next i.more) ∙ ap (◌∷◌ b) i.starts;
      }
    ]

module _ (c : Crypto) where
  open c use {hex_encode, hex_decode, sha256, hex_decode-encode, hex_encode_no_dot}

  hex_key-hex_encode :
      (key : Bytes) → All IsU8 key → length key ≡ 32 → hex_key c (hex_encode key) ≡ ok key
  hex_key-hex_encode key bytes size = ground (arith, hex_decode-encode key bytes)

  -- The address made of a 32-byte key and an identifier, be it empty or with dots of its own, is
  -- taken apart into its hash, the key and the identifier.
  pub parse_client_address-make_address_string :
      (public_key identifier : Bytes)
      → All IsU8 public_key
      → length public_key ≡ 32
      → parse_client_address c (make_address_string c public_key identifier)
        ≡ ok (sha256 (make_address_string c public_key identifier), (public_key, identifier))
  unfolding parse_client_address make_address_string
  parse_client_address-make_address_string public_key [] bytes size =
      rw (cut_no_dot (hex_encode public_key) (hex_encode_no_dot public_key))
        (rw (hex_key-hex_encode public_key bytes size) refl)
  parse_client_address-make_address_string public_key (b ∷ bs) bytes size =
      let i = append_dot-IsPieced (b ∷ bs) (hex_encode public_key) (hex_encode_no_dot public_key) in
      rw i.pieces (rw i.ends (rw (hex_key-hex_encode public_key bytes size) (rw i.starts refl)))
