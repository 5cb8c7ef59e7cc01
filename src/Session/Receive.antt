-- ===== src/Session/Receive.antt =====
-- src/session.rs: `receive_with` and `update_conn_window_size`.
use nkn_sdk_rust.Prelude.{
  ℕ, zero, suc, ◌+◌, ◌%◌, ◌^◌, Bool, true, false, not, ◌&&◌, Option, none, some, List, [], ◌∷◌, ltb,
  ◌==◌, if◌then◌else◌, length, Bytes, Map, lookup, insert, remove, contains_key, get_elem?, nat_eq,
  bytes_eq, bytes_beq, Outcome, ok, err,
}
use nkn_sdk_rust.Prelude.Results
use nkn_sdk_rust.Prelude.Int.{pos, negsuc, ltb_ℤ}
use nkn_sdk_rust.Floats.{F64}
use nkn_sdk_rust.Sequence.{next_seq, seq_in_between, compare_seq, min_sequence_id}
use nkn_sdk_rust.Connection.{Connection, receive_ack, send_ack, set_window_size, one}
use nkn_sdk_rust.Session.{Session, Packet, Run, done, panicked, blocked, ◌>>=◌, send}
use nkn_sdk_rust.Session.Handshake.{conn_key, handle_handshake_packet, handle_close_packet}

abbrev pub to_run {ℓ} : {A : Type ℓ} → Outcome A → Run A
to_run (ok a) = done a
to_run (err e) = panicked
to_run Results.panicked = panicked

abbrev pub is_empty {ℓ} : {A : Type ℓ} → List A → Bool
is_empty [] = true
is_empty (x ∷ xs) = false

-- The `loop` that moves the start of the window past the numbers that still have data.
unfoldable pub advance : ℕ → ℕ → ℕ → Map ℕ Bytes → Run ℕ
advance zero start end window = blocked
advance (suc fuel) start end window =
    let start' = next_seq start (pos 1) in
    elim (contains_key start' window) [
      | false ↦ done start'
      | true ↦ elim (start' == end) [ true ↦ done start' | false ↦ advance fuel start' end window ]
    ]

-- More rounds than there are sequence numbers.
abbrev pub loop_fuel : ℕ
loop_fuel = 2 ^ 32

-- One start with its end. The calls of `seq_in_between` pass the window's start and end first, as
-- the source does.
-- `list[i]`, but for an empty list a value in its place.
abbrev pub index_or : ℕ → List ℕ → ℕ → Run ℕ
index_or other [] i = done other
index_or other (x ∷ xs) i = elim (get_elem? (x ∷ xs) i) [ none ↦ panicked | some v ↦ done v ]

-- The length of the starts where there are counts, and else that of the counts.
abbrev pub ack_rounds : Packet → ℕ
ack_rounds p = if is_empty p.ack_seq_count then length p.ack_seq_count else length p.ack_start_seq

abbrev pub lengths_differ : Packet → Bool
lengths_differ p =
    not (length p.ack_start_seq == length p.ack_seq_count)
    && not (is_empty p.ack_start_seq)
    && not (is_empty p.ack_seq_count)

-- The sum loop of `update_conn_window_size`, and its second loop.
module _ (F : F64) where
  open F use {Float, of_nat, add, mul, div, le}

  unfoldable pub sum_sizes : Float → Map Bytes (Connection F) → Float
  sum_sizes acc [] = acc
  sum_sizes acc ((key, conn) ∷ rest) = sum_sizes (add acc conn.window_size) rest

  unfoldable pub share_out : Float → Float → Map Bytes (Connection F) → Map Bytes (Connection F)
  share_out count total [] = []
  share_out count total ((key, conn) ∷ rest) =
      (key, set_window_size F conn (mul count (div conn.window_size total)) (one F))
      ∷ share_out count total rest

  unfoldable pub update_conn_window_size : Session F → Session F
  unfolding sum_sizes share_out
  update_conn_window_size s =
      let total = sum_sizes (of_nat 0) s.connections in
      if le total (of_nat 0)
      then s
      else record s { connections = share_out s.send_window_packet_count total s.connections }

  -- `conn.receive_ack(seq, is_sent_by_me)` for every connection.
  unfoldable pub ack_connections : ℕ → ℕ → Map Bytes (Connection F) → Run (Map Bytes (Connection F))
  unfolding conn_key
  ack_connections seq now [] = done []
  ack_connections seq now ((key, conn) ∷ rest) =
      let by_me = bytes_beq key (conn_key conn.local_client_id conn.remote_client_id) in
      let others = ack_connections seq now rest in
      to_run (receive_ack F conn seq by_me now) >>= λ conn'.
      others >>= λ rest'. done ((key, conn') ∷ rest')

  -- `while seq_in_between(ack_start_seq, ack_end_seq, seq)`. Fuel that runs out counts as a loop that
  -- does not end.
  unfoldable pub ack_loop : ℕ → ℕ → ℕ → ℕ → ℕ → Session F → Run (Session F)
  ack_loop zero start end seq now s = blocked
  ack_loop (suc fuel) start end seq now s = elim (seq_in_between start end seq) [
    | false ↦ done s
    | true ↦ ack_connections seq now s.connections >>= λ conns.
        ack_loop fuel start end (next_seq seq (pos 1)) now
          (record s { connections = conns; send_window_data = remove seq s.send_window_data })
  ]

  abbrev pub move_window : ℕ → Session F → Run (Session F)
  move_window start s =
      if start == s.send_window_start_seq
      then (advance loop_fuel s.send_window_start_seq s.send_window_end_seq s.send_window_data
          >>= λ seq. done (record s { send_window_start_seq = seq }))
      else done s

  unfoldable pub handle_ack : ℕ → ℕ → ℕ → Session F → Run (Session F)
  handle_ack ack_start_seq ack_end_seq now s =
      let first = s.send_window_start_seq in
      let known = seq_in_between first s.send_window_end_seq ack_start_seq in
      let start = if known then ack_start_seq else first in
      let rest = ack_loop loop_fuel start ack_end_seq start now s >>= move_window start in
      if seq_in_between first s.send_window_end_seq (next_seq ack_end_seq (negsuc 0))
      then rest
      else done s

  -- `for i in 0..count`, with the rounds that are left.
  unfoldable pub handle_acks : ℕ → ℕ → List ℕ → List ℕ → ℕ → Session F → Run (Session F)
  handle_acks zero i starts counts now s = done s
  handle_acks (suc n) i starts counts now s = do
    start ← index_or min_sequence_id starts i
    count ← index_or 1 counts i
    s' ← handle_ack start (next_seq start (pos count)) now s
    handle_acks n (i + 1) starts counts now s'

  -- The acknowledgements of a packet. `none` where the call returns at once.
  unfoldable pub receive_acks : Packet → ℕ → Session F → Run (Option (Session F))
  receive_acks p now s =
      if is_empty p.ack_start_seq && is_empty p.ack_seq_count
      then done (some s)
      else if lengths_differ p
      then done none
      else handle_acks (ack_rounds p) 0 p.ack_start_seq p.ack_seq_count now s >>= λ s'.
          done (some (update_conn_window_size s'))

  unfoldable pub receive_bytes_read : Packet → Session F → Run (Session F)
  receive_bytes_read p s =
      if ltb s.remote_bytes_read p.bytes_read
      then (send s.send_window_update tt >>= λ token.
          done (record s { remote_bytes_read = p.bytes_read; send_window_update = token }))
      else done s

  -- Data is stored only under a number that is there already. `none` where the call returns at once.
  -- Where data arrives in order, the token of `recv_data_update` is taken out.
  unfoldable pub store_data : Packet → Session F → Option (Session F)
  store_data p s =
      let used = (s.recv_window_used + length p.contents % 2 ^ 32) % 2 ^ 32 in
      let in_order = p.sequence_id == s.recv_window_start_seq in
      if not (ltb_ℤ (compare_seq p.sequence_id s.recv_window_start_seq) (pos 0))
        && contains_key p.sequence_id s.recv_window_data
      then if ltb s.recv_window_size used
        then none
        else some (record s {
          recv_window_data = insert p.sequence_id p.contents s.recv_window_data;
          recv_window_used = used;
          recv_data_update = if in_order then none else s.recv_data_update;
        })
      else some s

  abbrev pub queue_ack : Bytes → ℕ → Session F → Session F
  queue_ack key seq s = elim (lookup key s.connections) [
    | none ↦ s
    | some conn ↦ record s { connections = insert key (send_ack F conn seq) s.connections }
  ]

  unfoldable pub receive_data : Bytes → Packet → Session F → Session F
  receive_data key p s =
      if ltb 0 p.sequence_id
      then if ltb s.recv_mtu (length p.contents)
        then s
        else elim (store_data p s) [ none ↦ s | some s' ↦ queue_ack key p.sequence_id s' ]
      else s

  abbrev pub after_acks : Bytes → Packet → Session F → Option (Session F) → Run (Session F)
  after_acks key p s none = done s
  after_acks key p s (some s') = receive_bytes_read p s' >>= λ s''. done (receive_data key p s'')

  -- What an established session does with a packet, and what another does.
  unfoldable pub receive_established : Bytes → Packet → ℕ → Session F → Run (Session F)
  receive_established key p now s = receive_acks p now s >>= after_acks key p s

  abbrev pub receive_fresh : Packet → Session F → Run (Session F)
  receive_fresh p s = if p.handshake then handle_handshake_packet F s p else done s

module _ (F : F64) (decode : Bytes → Option Packet) where
  abbrev pub dispatch : Bytes → Packet → ℕ → Session F → Run (Session F)
  dispatch key p now s =
      if p.close
      then done (handle_close_packet F s)
      else if s.is_established
      then receive_established F key p now s
      else receive_fresh F p s

  -- A packet of more than ten bytes is dropped.
  unfoldable pub receive_with : Bytes → Bytes → Bytes → ℕ → Session F → Run (Session F)
  receive_with local_client_id remote_client_id buf now s =
      if ltb 10 (length buf) then done s else elim (decode buf) [
        | none ↦ panicked
        | some p ↦ dispatch (conn_key local_client_id remote_client_id) p now s
      ]
