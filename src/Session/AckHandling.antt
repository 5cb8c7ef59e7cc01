-- ===== src/Session/AckHandling.antt =====
-- The acknowledgements that a session of src/session.rs receives. The loop over the acknowledged
-- numbers is never entered: `seq_in_between` takes the number first, and is called with it last.
use nkn_sdk_rust.Prelude.{
  ℕ, zero, suc, ◌+◌, ◌^◌, ◌≤◌, ◌<◌, ◌≡◌, ◌≢◌, ◌⊎◌, inl, inr, refl, ap, false, ◌&&◌, none, some,
  List, [], ◌∷◌, arith, length, Bytes, Map, map, contains_key, get_elem?, nat_eq, ◌==◌,
  if◌then◌else◌, Bool-cases,
}
use nkn_sdk_rust.Prelude.Int.{pos, negsuc}
use nkn_sdk_rust.Floats.{F64}
use nkn_sdk_rust.Sequence.{next_seq, seq_in_between, min_sequence_id}
use nkn_sdk_rust.Sequence.Cycle.{IsSeq, ahead, next_seq_forward, next_seq-IsSeq}
use nkn_sdk_rust.Connection.{Connection, set_window_size}
use nkn_sdk_rust.Session.{Session, Packet, done}
use nkn_sdk_rust.Session.Receive.{
  ack_loop, advance, loop_fuel, handle_ack, index_or, handle_acks, ack_rounds, lengths_differ,
  is_empty, receive_acks, update_conn_window_size, share_out, sum_sizes,
}

get_elem?-some : (l : List ℕ) (i : ℕ) → i < length l → (v : ℕ) × (get_elem? l i ≡ some v)
get_elem?-some [] i h = absurd (omega arith)
get_elem?-some (x ∷ xs) zero h = (x, refl)
get_elem?-some (x ∷ xs) (suc i) h = get_elem?-some xs i (omega arith)

-- The test of the loop, in its first round.
first_test : (start end : ℕ) → seq_in_between start end start ≡ false
unfolding seq_in_between
first_test start end = ground arith

-- The moving of the window's start ends, at the window's end or at a number without data.
advance_ends :
    (fuel start end : ℕ) (window : Map ℕ Bytes)
    → IsSeq start
    → IsSeq end
    → start ≢ end
    → ahead start end ≤ fuel
    → (r : ℕ) × (advance fuel start end window ≡ done r)
      × IsSeq r
      × ((r ≡ end) ⊎ (contains_key r window ≡ false))
unfolding advance
advance_ends zero start end window hs he ne h = absurd (omega arith)
advance_ends (suc fuel) start end window hs he ne h =
    let next = next_seq start (pos 1) in
    let hn : IsSeq next = next_seq-IsSeq start (pos 1) (omega arith) (omega arith) in
    elim (Bool-cases (contains_key next window)) [
      | inr free ↦ (next, ground arith, hn, inr free)
      | inl taken ↦ elim (Bool-cases (next == end)) [
        | inl last ↦ (next, ground arith, hn, inl (ground arith))
        | inr more ↦
            let (r, e, hr, q) =
              advance_ends fuel next end window hn he (ground arith)
                (ground (arith, next_seq_forward start 1)) in
            (r, ground arith, hr, q)
      ]
    ]

advance_full :
    (fuel start end : ℕ) (window : Map ℕ Bytes)
    → IsSeq start
    → IsSeq end
    → 2 ^ 32 ≤ fuel
    → (r : ℕ) × (advance fuel start end window ≡ done r)
      × IsSeq r
      × ((r ≡ end) ⊎ (contains_key r window ≡ false))
unfolding advance
advance_full zero start end window hs he h = absurd (omega arith)
advance_full (suc fuel) start end window hs he h =
    let next = next_seq start (pos 1) in
    let hn : IsSeq next = next_seq-IsSeq start (pos 1) (omega arith) (omega arith) in
    elim (Bool-cases (contains_key next window)) [
      | inr free ↦ (next, ground arith, hn, inr free)
      | inl taken ↦ elim (Bool-cases (next == end)) [
        | inl last ↦ (next, ground arith, hn, inl (ground arith))
        | inr more ↦
            let (r, e, hr, q) =
              advance_ends fuel next end window hn he (ground arith) (omega arith) in
            (r, ground arith, hr, q)
      ]
    ]

module _ (F : F64) where
  ack_loop_ends :
      (fuel start end now : ℕ) (s : Session F)
      → 0 < fuel
      → ack_loop F fuel start end start now s ≡ done s
  unfolding ack_loop
  ack_loop_ends zero start end now s h = absurd (omega arith)
  ack_loop_ends (suc fuel) start end now s h = ground (arith, first_test start end)

  -- What one acknowledgement leads to.
  abbrev moved : Session F → ℕ → Session F
  moved s r = record s { send_window_start_seq = r }

  abbrev pub HasWindow : Session F → Type 0
  HasWindow s = IsSeq s.send_window_start_seq × IsSeq s.send_window_end_seq

  handle_ack_moves :
      (start end now : ℕ) (s : Session F)
      → HasWindow s
      → (r : ℕ) × (handle_ack F start end now s ≡ done (moved s r)) × IsSeq r
  unfolding handle_ack
  handle_ack_moves start end now s w =
      let first = s.send_window_start_seq in
      let from = if seq_in_between first s.send_window_end_seq start then start else first in
      let loop = ack_loop_ends loop_fuel from end now s (omega arith) in
      let (r, e, hr, q) =
        advance_full loop_fuel first s.send_window_end_seq s.send_window_data w.0 w.1
          (omega arith) in
      elim (Bool-cases (seq_in_between first s.send_window_end_seq (next_seq end (negsuc 0)))) [
        | inr no_ack ↦ (first, rw no_ack, w.0)
        | inl ack ↦ elim (Bool-cases (from == first)) [
          | inl from_first ↦ (r, rw ack (rw loop (rw from_first (rw e))), hr)
          | inr other ↦ (first, rw ack (rw loop (rw other)), w.0)
        ]
      ]

  -- An index in range.
  index_or_stop :
      (other : ℕ) (l : List ℕ) (i : ℕ)
      → (l ≡ []) ⊎ (i < length l)
      → (v : ℕ) × (index_or other l i ≡ done v)
  index_or_stop other [] i h = (other, refl)
  index_or_stop other (x ∷ xs) zero h = (x, refl)
  index_or_stop other (x ∷ xs) (suc i) h =
      let (v, e) = get_elem?-some xs i (ground arith) in (v, ground arith)

  handle_acks_moves :
      (n i : ℕ) (starts counts : List ℕ) (now : ℕ) (s : Session F)
      → HasWindow s
      → (starts ≡ []) ⊎ (i + n ≤ length starts)
      → (counts ≡ []) ⊎ (i + n ≤ length counts)
      → (r : ℕ) × (handle_acks F n i starts counts now s ≡ done (moved s r)) × IsSeq r
  unfolding handle_acks
  handle_acks_moves zero i starts counts now s w hs hc = (s.send_window_start_seq, refl, w.0)
  handle_acks_moves (suc n) i starts counts now s w hs hc =
      let (start, e) = index_or_stop min_sequence_id starts i (ground arith) in
      let (count, e') = index_or_stop 1 counts i (ground arith) in
      let (r, e'', hr) = handle_ack_moves start (next_seq start (pos count)) now s w in
      let (r', last, hr') =
        handle_acks_moves n (i + 1) starts counts now (moved s r) (hr, w.1) (ground arith)
          (ground arith) in
      (r', rw e (rw e' (rw e'' last)), hr')

  -- The connections without their window sizes.
  abbrev pub in_flight : Map Bytes (Connection F) → List (Bytes × Map ℕ ℕ × Map ℕ (Unit {0}))
  in_flight =
      map (λ (entry : Bytes × Connection F). (entry.0, entry.1.time_sent_seq, entry.1.resent_seq))

  in_flight-share_out :
      (count total : F.Float) (m : Map Bytes (Connection F))
      → in_flight (share_out F count total m) ≡ in_flight m
  unfolding share_out set_window_size
  in_flight-share_out count total [] = refl
  in_flight-share_out count total ((key, conn) ∷ rest) =
      ap (◌∷◌ (key, conn.time_sent_seq, conn.resent_seq)) (in_flight-share_out count total rest)

  -- Only the windows of the connections change.
  pub update_conn_window_size_keeps :
      (s : Session F)
      → let s' = update_conn_window_size F s in
        (s' ≡ record s { connections = s'.connections })
        × (in_flight s'.connections ≡ in_flight s.connections)
  unfolding update_conn_window_size
  update_conn_window_size_keeps s =
      let total = sum_sizes F (F.of_nat 0) s.connections in
      elim (Bool-cases (F.le total (F.of_nat 0))) [
        | inl empty ↦ (ground arith, ground arith)
        | inr full ↦ (
          ground arith,
          ground (arith, in_flight-share_out s.send_window_packet_count total s.connections),
        )
      ]

  rounds_in_range :
      (p : Packet)
      → lengths_differ p ≡ false
      → ((p.ack_start_seq ≡ []) ⊎ (0 + ack_rounds p ≤ length p.ack_start_seq))
        × ((p.ack_seq_count ≡ []) ⊎ (0 + ack_rounds p ≤ length p.ack_seq_count))
  rounds_in_range p h = ground arith

  -- Only the start of the window and the connections change.
  abbrev pub acked : Session F → ℕ → Map Bytes (Connection F) → Session F
  acked s r conns = record s { send_window_start_seq = r; connections = conns }

  pub receive_acks_shape :
      (p : Packet) (now : ℕ) (s : Session F)
      → HasWindow s
      → (receive_acks F p now s ≡ done none)
        ⊎ ((r : ℕ) × (conns : Map Bytes (Connection F)) × (receive_acks F p now s
              ≡ done (some (acked s r conns)))
            × IsSeq r
            × (in_flight conns ≡ in_flight s.connections))
  unfolding receive_acks
  receive_acks_shape p now s w =
      elim (Bool-cases (is_empty p.ack_start_seq && is_empty p.ack_seq_count)) [
        | inl no_acks ↦ inr (s.send_window_start_seq, s.connections, ground arith, w.0, refl)
        | inr acks ↦ elim (Bool-cases (lengths_differ p)) [
          | inl differ ↦ inl (ground arith)
          | inr same ↦
              let (hs, hc) = rounds_in_range p same in
              let (r, e, hr) =
                handle_acks_moves (ack_rounds p) 0 p.ack_start_seq p.ack_seq_count now s w hs hc in
              let (keeps, flight) = update_conn_window_size_keeps (moved s r) in
              inr (r, (update_conn_window_size F (moved s r)).connections, ground arith, hr, flight)
        ]
      ]

  -- Whatever acknowledgements a session with valid window bounds receives, it handles them without
  -- a panic and without waiting; but it takes no packet out of its send window, and none off the
  -- packets in flight of a connection.
  pub receive_acks_forget_nothing :
      (p : Packet) (now : ℕ) (s : Session F)
      → HasWindow s
      → (receive_acks F p now s ≡ done none)
        ⊎ ((s' : Session F) × (receive_acks F p now s ≡ done (some s'))
            × HasWindow s'
            × (s'.send_window_data ≡ s.send_window_data)
            × (s'.send_window_end_seq ≡ s.send_window_end_seq)
            × (in_flight s'.connections ≡ in_flight s.connections))
  receive_acks_forget_nothing p now s w = elim (receive_acks_shape p now s w) [
    | inl e ↦ inl e
    | inr (r, conns, e, hr, flight) ↦ inr (acked s r conns, e, (hr, w.1), refl, refl, flight)
  ]

  -- A packet whose acknowledgements have no counts moves nothing at all: no start of it is looked at.
  receive_acks_no_counts :
      (p : Packet) (now : ℕ) (s : Session F)
      → p.ack_seq_count ≡ []
      → (s' : Session F) × (receive_acks F p now s ≡ done (some s'))
        × (s'.send_window_start_seq ≡ s.send_window_start_seq)
        × (s'.send_window_data ≡ s.send_window_data)
        × (in_flight s'.connections ≡ in_flight s.connections)
  unfolding receive_acks
  receive_acks_no_counts p now s e =
      let (keeps, flight) = update_conn_window_size_keeps s in
      let zero_rounds : handle_acks F 0 0 p.ack_start_seq p.ack_seq_count now s ≡ done s =
        unfold handle_acks in refl in
      elim (Bool-cases (is_empty p.ack_start_seq)) [
        | inl no_acks ↦ (s, ground arith, refl, refl, refl)
        | inr acks ↦ (update_conn_window_size F s, ground arith, rw keeps, rw keeps, flight)
      ]
