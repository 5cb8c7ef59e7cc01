-- ===== src/Multiclient/Runs.antt =====
-- src/multiclient.rs and the prefixes of src/utils.rs at concrete addresses.
use nkn_sdk_rust.Prelude.{
  ◌≡◌, refl, Bool, true, false, ◌&&◌, ◌==◌, [], ◌∷◌, Bytes, ok, some, replicate, arith, get_elem?,
  IsIn, here, there,
}
use nkn_sdk_rust.Prelude.Int.{pos, negsuc, ◌+ℤ◌}
use nkn_sdk_rust.Addresses.Plain.{plain, hex}
use nkn_sdk_rust.Addresses.{parse_client_address}
use nkn_sdk_rust.Client.{Encoding, Random}
use nkn_sdk_rust.Multiclient.{
  decimal, decimal_digits, identifier_tag, add_identifier, client_ids, sub_address,
  remove_identifier,
}
use nkn_sdk_rust.Multiclient.Identifiers.{sub_address-injective}
use nkn_sdk_rust.Multiclient.Prefixes.{remove_identifier-add_identifier}

tag_42 : identifier_tag 42 ≡ b'_' ∷ b'_' ∷ b'4' ∷ b'2' ∷ b'_' ∷ b'_' ∷ []
unfolding identifier_tag decimal decimal_digits
tag_42 = refl

ids : client_ids true 2 ≡ negsuc 0 ∷ pos 0 ∷ pos 1 ∷ []
unfolding client_ids ◌+ℤ◌
ids = refl

abbrev key : Bytes
key = replicate 32 65

second-IsIn : IsIn (pos 1) (client_ids true 2)
unfolding client_ids ◌+ℤ◌
second-IsIn = there (there (here refl))

sub_address-injective_example :
    (pos 1 ≡ pos 1)
    × (parse_client_address plain (sub_address plain key [] (pos 1))
        ≡ ok (plain.sha256 (sub_address plain key [] (pos 1)), (key, add_identifier [] (pos 1))))
sub_address-injective_example =
    sub_address-injective plain key [] true 2 (pos 1) (pos 1) (ground arith) refl (ground arith)
      second-IsIn second-IsIn refl

abbrev bob : Bytes
bob = hex key

bob_parses : parse_client_address plain bob ≡ ok (plain.sha256 bob, (key, []))
unfolding parse_client_address
bob_parses = refl

-- The expression of the source: `__`, a backslash, letters `d`, and `__`.
abbrev is_ds : Bytes → Bool
is_ds [] = false
is_ds (a ∷ []) = false
is_ds (a ∷ b ∷ []) = (a == b'_') && (b == b'_')
is_ds (a ∷ b ∷ e ∷ more) = (a == b'd') && is_ds (b ∷ e ∷ more)

abbrev is_tail : Bytes → Bool
is_tail [] = false
is_tail (d ∷ ds) = (d == b'd') && is_ds ds

abbrev is_match : Bytes → Bool
is_match [] = false
is_match (a ∷ []) = false
is_match (a ∷ b ∷ []) = false
is_match (a ∷ b ∷ e ∷ more) = (a == b'_') && ((b == b'_') && ((e == 92) && is_tail more))

is_match_backslash : (text : Bytes) → is_match text ≡ true → get_elem? text 2 ≡ some 92
is_match_backslash [] h = absurd (cc)
is_match_backslash (a ∷ []) h = absurd (cc)
is_match_backslash (a ∷ b ∷ []) h = absurd (cc)
is_match_backslash (a ∷ b ∷ e ∷ more) h = ground (arith, h)

remove_identifier-add_identifier_example :
    remove_identifier is_match (add_identifier bob (pos 3)) ≡ (add_identifier bob (pos 3), [])
remove_identifier-add_identifier_example =
    remove_identifier-add_identifier is_match bob 3 is_match_backslash (λ e. absurd (cc))

-- What the expression does match.
remove_identifier_d :
    remove_identifier is_match (b'_' ∷ b'_' ∷ 92 ∷ b'd' ∷ b'_' ∷ b'_' ∷ b'.' ∷ b'a' ∷ [])
    ≡ (b'_' ∷ b'_' ∷ 92 ∷ b'd' ∷ b'_' ∷ b'_' ∷ [], b'a' ∷ [])
unfolding remove_identifier
remove_identifier_d = refl

abbrev encoding : Encoding
encoding = record {
  encode_payload = λ payload. payload.contents;
  encode_message = λ msg. msg.payload;
  encode_outbound = λ msg. msg.dest;
  encode_client = λ msg. msg.message;
  zlib = λ bytes. bytes;
}

abbrev random : Random
random = record {
  key = replicate 32 5;
  msg_nonce = replicate 24 6;
  key_nonce = λ i. replicate 24 i;
  length-key = refl;
  length-msg_nonce = refl;
  length-key_nonce = λ i. refl;
}
