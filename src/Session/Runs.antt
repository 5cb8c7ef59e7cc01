-- ===== src/Session/Runs.antt =====
-- src/session.rs at concrete inputs, with whole numbers for floats and a packet's data for its
-- encoding.
use nkn_sdk_rust.Prelude.{
  ◌++◌, ◌≢◌, ℕ, ◌≤◌, ◌<◌, ◌≡◌, ◌⊎◌, refl, Bool, true, Option, none, some, List, [], ◌∷◌, arith,
  length, min, Bytes, nat_eq,
}
use nkn_sdk_rust.Prelude.Int.{to_u64, pos}
use nkn_sdk_rust.Floats.{whole}
use nkn_sdk_rust.Connection.{default_ncp_config}
use nkn_sdk_rust.Connection.Tasks.{Send}
use nkn_sdk_rust.Session.{
  Session, Packet, default_packet, done, panicked, new, send_window_used, get_seq, get_data_to_send,
  buffer_size,
}
use nkn_sdk_rust.Session.Handshake.{
  dial, send_handshake_packet, send_to_self, handle_handshake_packet, new_connections,
}
use nkn_sdk_rust.Session.Write.{write, wrote, refused, buffer_empty, bytes_read_due, data_packet}
use nkn_sdk_rust.Session.Receive.{receive_acks}
use nkn_sdk_rust.Session.Read.{read}
use nkn_sdk_rust.Session.Negotiation.{
  handle_handshake_packet_agrees, handle_handshake_packet_limits,
}
use nkn_sdk_rust.Session.Sending.{CanWrite, Because, get_data_to_send-write, write_refused}
use nkn_sdk_rust.Sequence.{next_seq}
use nkn_sdk_rust.Session.AckHandling.{HasWindow, in_flight, receive_acks_forget_nothing}
use nkn_sdk_rust.Session.Lifecycle.{Inv, new-Inv}
use nkn_sdk_rust.Session.Reachable.{Step, here, next, dials, Step-Inv, read-new}

abbrev encode : Packet → Bytes
encode p = 0 ∷ p.contents

abbrev hello : Packet
hello = record default_packet {
  client_ids = (b'x' ∷ []) ∷ [];
  window_size = 5000;
  mtu = 100;
  handshake = true;
}

abbrev decode : Bytes → Option Packet
decode [] = none
decode (b ∷ bs) = some hello

abbrev send_with : Send → Bool
send_with c = true

abbrev my_ids : List Bytes
my_ids = (b'a' ∷ []) ∷ (b'b' ∷ []) ∷ []

abbrev fresh : Session whole
fresh = new whole default_ncp_config [] [] my_ids [] 7

established : Session whole
unfolding new
established = record fresh {
  send_window_size = 5000;
  send_mtu = 100;
  is_established = true;
  send_window_packet_count = 50;
  connections = new_connections whole my_ids ((b'x' ∷ []) ∷ []) 50 [];
  remote_client_ids = (b'x' ∷ []) ∷ [];
  on_accept = some tt;
}

handle_handshake_packet_runs : handle_handshake_packet whole fresh hello ≡ done established
unfolding new established handle_handshake_packet
handle_handshake_packet_runs = refl

dialled : Session whole
unfolding new
dialled = record fresh { is_accepted = true }

dial_runs : (dial whole encode send_with fresh).result ≡ done dialled
unfolding new dialled dial send_handshake_packet send_to_self
dial_runs = refl

handle_handshake_packet_agrees_example :
    (s' : Session whole) × (handle_handshake_packet whole fresh hello ≡ done s')
    × (s'.is_established ≡ true)
    × (s'.send_window_size ≡ min fresh.send_window_size 5000)
    × (s'.send_mtu ≡ min fresh.send_mtu 100)
    × (s'.remote_client_ids ≡ (b'x' ∷ []) ∷ [])
    × (length s'.connections ≤ min (length fresh.local_client_ids) 1)
unfolding new
handle_handshake_packet_agrees_example =
    handle_handshake_packet_agrees whole fresh hello refl refl (omega arith) (omega arith)
      (omega arith)

abbrev no_mtu : Packet
no_mtu = record hello { mtu = 0 }

handle_handshake_packet_limits_example :
    (0 < established.send_window_size)
    × (established.send_window_size ≤ fresh.send_window_size)
    × (0 < established.send_mtu)
    × (established.send_mtu ≤ fresh.send_mtu)
unfolding new
handle_handshake_packet_limits_example =
    handle_handshake_packet_limits whole fresh hello (omega arith) (omega arith)
      handle_handshake_packet_runs

abbrev message : Bytes
message = 1 ∷ 2 ∷ 3 ∷ []

can_write : CanWrite whole encode established 3
unfolding new established send_window_used
can_write = ground arith

get_data_to_send-write_example :
    (s' : Session whole) × (write whole encode established message ≡ done (wrote 3, s'))
    × (seq : ℕ) × (get_seq s'.send_chan ≡ done (seq, none))
    × (rest : Bytes) × (length (message ++ rest) ≡ buffer_size)
    × (get_data_to_send whole s' seq ≡ done (encode (data_packet seq (message ++ rest))))
    × ((other : ℕ)
        → other ≢ seq
        → get_data_to_send whole s' other ≡ get_data_to_send whole established other)
    × (s'.send_window_end_seq ≡ next_seq seq (pos 1))
get_data_to_send-write_example = get_data_to_send-write whole encode established message can_write

write_empty : write whole encode established [] ≡ done (refused buffer_empty, established)
unfolding new established write
write_empty = refl

write_refused_example :
    ((s' : Session whole)
      → write whole encode established [] ≡ done (refused buffer_empty, s')
      → (s' ≡ established) × Because whole encode established [] buffer_empty)
    × (Because whole encode established [] buffer_empty
        → write whole encode established [] ≡ done (refused buffer_empty, established))
write_refused_example = write_refused whole encode established [] buffer_empty

abbrev large : Session whole
large = record established { send_mtu = 1500 }

abbrev has_read : Session whole
has_read = record established { bytes_read = 5; bytes_read_update_time = 9 }

has_read_due : bytes_read_due whole has_read 1_000_000_000 ≡ true
unfolding new established to_u64
has_read_due = refl

-- An acknowledgement of one packet, with and without its count.
abbrev ack : Packet
ack = record default_packet { ack_start_seq = 1 ∷ []; ack_seq_count = 2 ∷ [] }

receive_acks_forget_nothing_example :
    (receive_acks whole ack 9 established ≡ done none)
    ⊎ ((s' : Session whole) × (receive_acks whole ack 9 established ≡ done (some s'))
        × HasWindow whole s'
        × (s'.send_window_data ≡ established.send_window_data)
        × (s'.send_window_end_seq ≡ established.send_window_end_seq)
        × (in_flight whole s'.connections ≡ in_flight whole established.connections))
unfolding new established
receive_acks_forget_nothing_example =
    receive_acks_forget_nothing whole ack 9 established (omega arith)

dial-Step : Step whole encode decode send_with fresh dialled
dial-Step = dials dial_runs

Step-Inv_example : Inv whole dialled
Step-Inv_example =
    Step-Inv whole encode decode send_with dial-Step
      (new-Inv whole default_ncp_config [] [] my_ids [] 7)

read-new_example :
    (read whole dialled (0 ∷ 0 ∷ []) 9
      ≡ done (record { buf = 0 ∷ 0 ∷ []; count = 0; session = dialled }))
    ⊎ (read whole dialled (0 ∷ 0 ∷ []) 9 ≡ panicked)
read-new_example =
    read-new whole encode decode send_with default_ncp_config [] [] my_ids [] 7 dialled (0 ∷ 0 ∷ [])
      9 (next here dial-Step)

encode_holds : (p : Packet) → length p.contents ≤ length (encode p)
encode_holds p = omega arith
