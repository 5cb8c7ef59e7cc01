-- ===== src/Multiclient.antt =====
-- src/multiclient.rs with `add_identifier`, `add_multiclient_prefix` and `remove_identifier` of
-- src/utils.rs: several clients of one account, told apart by a number in their addresses. The regular
-- expression of `remove_identifier` is matched by the crate `regex`, which is a parameter.
pub mod Decimal
pub mod Identifiers
pub mod Prefixes
pub mod Names
mod Runs
use nkn_sdk_rust.Prelude.{
  ℕ, zero, suc, ◌+◌, ◌/◌, ◌%◌, ltb, if◌then◌else◌, Bool, true, false, not, List, [], ◌∷◌, ◌++◌, map,
  Option, none, some, Outcome, ok, panicked, ◌>>=◌, Bytes, Map, unwrap_ok,
}
use nkn_sdk_rust.Prelude.Int.{ℤ, pos, negsuc, ◌+ℤ◌, ltb_ℤ}
use nkn_sdk_rust.Serialization.Buffers.{BytesMut}
use nkn_sdk_rust.Addresses.Crates.{Crypto}
use nkn_sdk_rust.Addresses.{cut, add_identifier_prefix, make_address_string}
use nkn_sdk_rust.Client.{Payload, Encoding, Random}
use nkn_sdk_rust.Client.Messages.{Sender, send_messages}
use nkn_sdk_rust.Client.Payloads.{process_dests}
use nkn_sdk_rust.Inbound.Asking.{MessageConfig}

-- The decimal text of a number below 10 ^ (n + 1).
unfoldable pub decimal_digits : ℕ → ℕ → Bytes
decimal_digits zero n = (48 + n % 10) ∷ []
decimal_digits (suc k) n =
    let more = decimal_digits k (n / 10) in
    if ltb n 10 then (48 + n) ∷ [] else more ++ ((48 + n % 10) ∷ [])

-- `format!` of an `i32` that is not negative.
unfoldable pub decimal : ℕ → Bytes
decimal n = decimal_digits 9 n

-- `__{id}__`
unfoldable pub identifier_tag : ℕ → Bytes
identifier_tag n = b'_' ∷ b'_' ∷ (decimal n ++ (b'_' ∷ b'_' ∷ []))

unfoldable pub add_identifier : Bytes → ℤ → Bytes
add_identifier addr (negsuc n) = addr
add_identifier addr (pos n) = add_identifier_prefix addr (identifier_tag n)

unfoldable pub add_multiclient_prefix : List Bytes → ℤ → List Bytes
add_multiclient_prefix [] client_id = []
add_multiclient_prefix (addr ∷ dest) client_id =
    add_identifier addr client_id ∷ add_multiclient_prefix dest client_id

-- The pair is that of the source: the piece that matched, and the next piece.
abbrev pub removed : (Bytes → Bool) → Bytes → Bytes → List Bytes → Bytes × Bytes
removed is_match src first [] = (src, [])
removed is_match src first (next ∷ more) = if is_match first then (first, next) else (src, [])

unfoldable pub remove_identifier : (Bytes → Bool) → Bytes → Bytes × Bytes
remove_identifier is_match src = let (first, others) = cut src in removed is_match src first others

-- `while i < num_sub_clients` of `MultiClient::new`, on fuel.
abbrev pub client_ids_from : ℕ → ℤ → ℤ → List ℤ
client_ids_from zero i num_sub_clients = []
client_ids_from (suc fuel) i num_sub_clients =
    let more = client_ids_from fuel (i +ℤ pos 1) num_sub_clients in
    if ltb_ℤ i num_sub_clients then i ∷ more else []

-- From -1 on where there is a client of the account's own address.
abbrev pub first_id : Bool → ℤ
first_id true = negsuc 0
first_id false = pos 0

-- The numbers of the clients that are made. A negative `num_sub_clients` is not modelled.
unfoldable pub client_ids : Bool → ℕ → List ℤ
client_ids original_client num_sub_clients =
    client_ids_from (num_sub_clients + 2) (first_id original_client) (pos num_sub_clients)

-- The address of the client with the number `i`, which `Client::new` puts together.
unfoldable pub sub_address : Crypto → Bytes → Bytes → ℤ → Bytes
sub_address c public_key base_identifier i =
    make_address_string c public_key (add_identifier base_identifier i)

-- A connected client, as it sends.
pub record SubClient : Type 0 where
  pub sender : Sender
  pub shared_keys : Map Bytes Bytes
  pub stdin_tx : Option (Bytes → Bool)

-- The RPC servers of a default configuration are none, so that no name is found.
abbrev pub no_registrant : Bytes → Option Bytes
no_registrant name = none

module _ (m : BytesMut) (c : Crypto) (p : Encoding) (get_registrant : Bytes → Option Bytes)
    (nonces : ℕ → ℕ) (rnd : Random) where
  unfoldable pub send_with_client :
      SubClient → ℤ → List Bytes → Payload → Bool → ℕ → Outcome (List Bytes)
  send_with_client client client_id dests payload encrypted max_holding_secs = do
    let sender : Sender = record client.sender {
      encrypted = encrypted;
      max_holding_seconds = max_holding_secs;
    }
    (wrote, keys) ←
        send_messages m c p get_registrant client.stdin_tx nonces rnd sender
          (add_multiclient_prefix dests client_id) payload client.shared_keys
    ok wrote

  -- The loop over the clients, in the order of their map: an error of one is a panic.
  unfoldable pub send_with_all :
      MessageConfig → List Bytes → Payload → List (ℤ × SubClient) → Outcome (List (List Bytes))
  send_with_all config dests payload [] = ok []
  send_with_all config dests payload ((i, client) ∷ clients) = do
    wrote ←
        unwrap_ok
          (send_with_client client i dests payload (not config.unencrypted) config.max_holding_secs)
    more ← send_with_all config dests payload clients
    ok (wrote ∷ more)

  abbrev pub send_unless_empty :
      MessageConfig → List Bytes → Payload → List (ℤ × SubClient) → Outcome (List (List Bytes))
  send_unless_empty config [] payload clients = ok []
  send_unless_empty config (dest ∷ dests) payload clients =
      send_with_all config (dest ∷ dests) payload clients

  -- `msg_id` is from the random generator.
  unfoldable pub send_data :
      Bytes
      → List (ℤ × SubClient)
      → List Bytes
      → Bytes
      → MessageConfig
      → Outcome (List (List Bytes))
  send_data msg_id clients dests text config = do
    found ← unwrap_ok (process_dests no_registrant dests)
    let payload : Payload = record {
      kind = 0;
      message_id = msg_id;
      contents = text;
      reply_to_id = [];
      no_reply = config.no_reply;
    }
    send_unless_empty config found payload clients
