-- ===== src/Connection/Runs.antt =====
-- src/connection.rs at concrete inputs, with whole numbers for floats.
use nkn_sdk_rust.Prelude.{
  ℕ, ◌≤◌, ◌≡◌, refl, true, false, none, some, List, [], ◌∷◌, ok, ◌⊎◌, lookup, nat_eq, Bytes,
}
use nkn_sdk_rust.Floats.{whole}
use nkn_sdk_rust.Sequence.{cmp, next_seq}
use nkn_sdk_rust.Connection.{
  Connection, NcpConfig, default_ncp_config, receive_ack, millis, updated, ready,
  wait_for_send_window,
}
use nkn_sdk_rust.Connection.Acks.{receive_ack_forgets}
use nkn_sdk_rust.Connection.Tasks.{
  send_ack_round, collect_acks, extend_run, peek, take_out, check_timeout_round,
}
use nkn_sdk_rust.Connection.AckQueue.{times, told, send_ack_round-told}
use nkn_sdk_rust.Connection.Timeouts.{check_timeout_round-Resends, Resends}

-- Packet 5 was sent at 0, and packet 6 at a later time.
abbrev busy : Connection whole
busy = record {
  local_client_id = b'a' ∷ [];
  remote_client_id = b'b' ∷ [];
  config = default_ncp_config;
  window_size = 8;
  send_window_update = false;
  time_sent_seq = (5, 0) ∷ (6, millis 9000) ∷ [];
  resent_seq = (5, tt) ∷ [];
  send_ack_queue = [];
  retransmission_timeout = millis 5000;
}

wait_for_send_window_full : wait_for_send_window whole busy 8 (updated 9 ∷ updated 7 ∷ []) ≡ ready
unfolding wait_for_send_window
wait_for_send_window_full = refl

acked_five : Connection whole
acked_five = record busy {
  time_sent_seq = (6, millis 9000) ∷ [];
  resent_seq = [];
  send_window_update = true;
  retransmission_timeout = 1;
}

receive_ack_five : receive_ack whole busy 5 true (millis 2000) ≡ ok acked_five
unfolding receive_ack acked_five
receive_ack_five = refl

receive_ack_forgets_example :
    (lookup 6 acked_five.time_sent_seq ≡ some (millis 9000))
    × (lookup 6 acked_five.resent_seq ≡ none)
    × (acked_five.send_window_update ≡ true)
unfolding acked_five
receive_ack_forgets_example =
    receive_ack_forgets whole busy 5 (millis 2000) true 0 6 refl receive_ack_five

abbrev queued : List (ℕ × Bytes)
queued = (7, 1 ∷ 2 ∷ []) ∷ []

abbrev small : NcpConfig
small = record default_ncp_config { max_ask_seq_list_size = 2 }

send_ack_round_two :
    send_ack_round small (1 ∷ 2 ∷ []) ≡ ok (some (record { start_seqs = 2 ∷ 1 ∷ []; counts = [] }))
unfolding send_ack_round collect_acks extend_run take_out peek cmp next_seq
send_ack_round_two = refl

send_ack_round-told_example :
    (2 ≤ 2)
    × (◌≡◌ {A = List ℕ} [] [] ⊎ (◌≡◌ {A = ℕ} 2 0))
    × ((number : ℕ) → times number (told (2 ∷ 1 ∷ []) []) ≡ times number (1 ∷ 2 ∷ []))
send_ack_round-told_example = send_ack_round-told small (1 ∷ 2 ∷ []) send_ack_round_two

-- Two packets are to be resent.
abbrev late : Connection whole
late = record busy { time_sent_seq = (5, 0) ∷ (7, 0) ∷ []; resent_seq = [] }

-- The second one waits.
late_waits : (check_timeout_round whole late (millis 10000) none).waiting ≡ some 7
unfolding check_timeout_round
late_waits = refl

check_timeout_round-Resends_example :
    Resends whole late (millis 10000) none (check_timeout_round whole late (millis 10000) none)
check_timeout_round-Resends_example = check_timeout_round-Resends whole late (millis 10000) none
