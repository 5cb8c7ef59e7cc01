-- ===== src/Session/Lifecycle.antt =====
-- A session of src/session.rs under any sequence of calls: what its application does, what its peer
-- sends, and the connections that take what it queued.
use nkn_sdk_rust.Prelude.{
  ℕ, ◌≡◌, ◌≢◌, ◌⊎◌, inl, inr, false, Option, none, some, List, [], arith, length, length-append,
  length-drop, drop, Bytes, nat_eq, ltb, Bool-cases, Option-cases,
}
use nkn_sdk_rust.Prelude.Int.{pos}
use nkn_sdk_rust.Floats.{F64}
use nkn_sdk_rust.Sequence.Cycle.{next_seq-IsSeq}
use nkn_sdk_rust.Connection.{NcpConfig}
use nkn_sdk_rust.Session.{Session, Packet, Run-cases, done, panicked, blocked, new, buffer_size}
use nkn_sdk_rust.Session.Handshake.{handle_handshake_packet, handle_close_packet, conn_key}
use nkn_sdk_rust.Session.Write.{write, WriteResult, flush_round, flush_send_buffer, copy_to_front}
use nkn_sdk_rust.Session.Receive.{
  receive_with, receive_established, receive_bytes_read, receive_data, store_data, receive_fresh,
  queue_ack,
}
use nkn_sdk_rust.Session.Read.{read}
use nkn_sdk_rust.Session.AckHandling.{HasWindow, receive_acks_shape, acked}

module _ (F : F64) where
  -- What holds between calls.
  pub record Inv (s : Session F) : Type 0 where
    pub nothing_received : s.recv_window_data ≡ []
    pub nothing_used : s.recv_window_used ≡ 0
    pub nothing_read : s.bytes_read ≡ 0
    pub window : HasWindow F s
    pub buffer_whole : length s.send_buffer ≡ buffer_size
    pub not_accepted : s.is_established ≡ false → s.on_accept ≡ none

  pub new-Inv :
      (config : NcpConfig) (la ra : Bytes) (ls rs : List Bytes) (now : ℕ)
      → Inv (new F config la ra ls rs now)
  unfolding new
  new-Inv config la ra ls rs now = ground arith

  handle_handshake_packet-Inv :
      (p : Packet) (s : Session F) {s' : Session F}
      → Inv s
      → handle_handshake_packet F s p ≡ done s'
      → Inv s'
  unfolding handle_handshake_packet
  handle_handshake_packet-Inv p s v h = ground arith

  receive_bytes_read-Inv :
      (p : Packet) (s : Session F) {s' : Session F}
      → Inv s
      → receive_bytes_read F p s ≡ done s'
      → Inv s'
  unfolding receive_bytes_read
  receive_bytes_read-Inv p s v h = ground arith

  receive_bytes_read_cases :
      (p : Packet) (s : Session F)
      → (receive_bytes_read F p s ≡ blocked)
        ⊎ ((s' : Session F) × (receive_bytes_read F p s ≡ done s'))
  unfolding receive_bytes_read
  receive_bytes_read_cases p s = elim (Bool-cases (ltb s.remote_bytes_read p.bytes_read)) [
    | inr old ↦ inr (s, ground arith)
    | inl newer ↦ elim (Option-cases s.send_window_update) [
      | inl free ↦ inr (
        record s { remote_bytes_read = p.bytes_read; send_window_update = some tt },
        ground arith,
      )
      | inr (_, full) ↦ inl (ground arith)
    ]
  ]

  -- Nothing is stored where nothing is stored yet.
  store_data_empty :
      (p : Packet) (s : Session F) → s.recv_window_data ≡ [] → store_data F p s ≡ some s
  unfolding store_data
  store_data_empty p s e = ground arith

  queue_ack-Inv : (key : Bytes) (seq : ℕ) (s : Session F) → Inv s → Inv (queue_ack F key seq s)
  queue_ack-Inv key seq s v = ground arith

  receive_data-Inv :
      (key : Bytes) (p : Packet) (s : Session F) → Inv s → Inv (receive_data F key p s)
  unfolding receive_data
  receive_data-Inv key p s v =
      ground (arith, store_data_empty p s v.nothing_received, queue_ack-Inv key p.sequence_id s v)

  receive_established_cases :
      (key : Bytes) (p : Packet) (now : ℕ) (s : Session F)
      → Inv s
      → (receive_established F key p now s ≡ blocked)
        ⊎ ((s' : Session F) × (receive_established F key p now s ≡ done s') × Inv s')
  unfolding receive_established
  receive_established_cases key p now s v = elim (receive_acks_shape F p now s v.window) [
    | inl e ↦ inr (s, ground arith, v)
    | inr (r, conns, e, hr, _) ↦
        let acks = acked F s r conns in
        let v' : Inv acks = ground arith in
        elim (receive_bytes_read_cases p acks) [
          | inl wait ↦ inl (ground arith)
          | inr (s', e') ↦
              let v'' = receive_bytes_read-Inv p acks {s' = s'} v' e' in
              inr (receive_data F key p s', ground arith, receive_data-Inv key p s' v'')
        ]
  ]

  handle_handshake_packet_cases :
      (p : Packet) (s : Session F)
      → Inv s
      → (s' : Session F) × (handle_handshake_packet F s p ≡ done s')
  handle_handshake_packet_cases p s v = elim (Run-cases (handle_handshake_packet F s p)) [
    | inl e ↦ absurd (never_panics e)
    | inr (inl e) ↦ absurd (never_waits e)
    | inr (inr returned) ↦ returned
  ]
    where
      never_panics : handle_handshake_packet F s p ≢ panicked
      never_panics = unfold handle_handshake_packet in ground arith

      never_waits : handle_handshake_packet F s p ≢ blocked
      never_waits = unfold handle_handshake_packet in ground arith

  -- With nothing in store `read` gives nothing: it returns at once, or it panics after its wait.
  pub read_nothing :
      (s : Session F) (buf : Bytes) (now : ℕ)
      → s.recv_window_data ≡ []
      → (read F s buf now ≡ done (record { buf = buf; count = 0; session = s }))
        ⊎ (read F s buf now ≡ panicked)
  unfolding read
  read_nothing s buf now e = ground arith

  length-copy_to_front :
      (buf buffer : Bytes) {b : Bytes}
      → copy_to_front buf buffer ≡ done b
      → length b ≡ length buffer
  length-copy_to_front buf buffer h =
      ground (arith, length-append buf (drop (length buf) buffer), length-drop (length buf) buffer)

module _ (F : F64) (encode : Packet → Bytes) where
  flush_send_buffer-Inv :
      (s : Session F) {s' : Session F} → Inv F s → flush_send_buffer F encode s ≡ done s' → Inv F s'
  unfolding flush_send_buffer
  flush_send_buffer-Inv s v h = ground (arith, next_seq-IsSeq s.send_window_end_seq (pos 1))

  pub write-Inv :
      (s : Session F) (buf : Bytes) {r : WriteResult} {s' : Session F}
      → Inv F s
      → write F encode s buf ≡ done (r, s')
      → Inv F s'
  unfolding write
  write-Inv s buf v h = ground (
    arith,
    next_seq-IsSeq s.send_window_end_seq (pos 1),
    length-append buf (drop (length buf) s.send_buffer),
    length-drop (length buf) s.send_buffer,
  )

  pub flush_round-Inv :
      (s : Session F) {s' : Session F} → Inv F s → flush_round F encode s ≡ done s' → Inv F s'
  unfolding flush_round
  flush_round-Inv s v h = ground (arith, next_seq-IsSeq s.send_window_end_seq (pos 1))

module _ (F : F64) (decode : Bytes → Option Packet) where
  receive_fresh-Inv :
      (p : Packet) (s : Session F) {s' : Session F}
      → Inv F s
      → receive_fresh F p s ≡ done s'
      → Inv F s'
  receive_fresh-Inv p s {s'} v h = ground (arith, handle_handshake_packet-Inv F p s {s' = s'} v)

  receive_established-Inv :
      (key : Bytes) (p : Packet) (now : ℕ) (s : Session F) {s' : Session F}
      → Inv F s
      → receive_established F key p now s ≡ done s'
      → Inv F s'
  receive_established-Inv key p now s v h =
      ground (arith, receive_established_cases F key p now s v)

  pub receive_with-Inv :
      (l r buf : Bytes) (now : ℕ) (s : Session F) {s' : Session F}
      → Inv F s
      → receive_with F decode l r buf now s ≡ done s'
      → Inv F s'
  unfolding receive_with handle_close_packet
  receive_with-Inv l r buf now s {s'} v h = elim (Option-cases (decode buf)) [
    | inl missing ↦ ground arith
    | inr (p, e) ↦ ground (
      arith,
      receive_fresh-Inv p s {s' = s'} v,
      receive_established-Inv (conn_key l r) p now s {s' = s'} v,
    )
  ]

  -- Where the packet decodes, `receive_with` returns or waits.
  pub receive_with_ends :
      (l r buf : Bytes) (now : ℕ) (s : Session F) (p : Packet)
      → Inv F s
      → decode buf ≡ some p
      → receive_with F decode l r buf now s ≢ panicked
  unfolding receive_with handle_close_packet
  receive_with_ends l r buf now s p v d =
      let (t, te) = handle_handshake_packet_cases F p s v in
      ground (arith, receive_established_cases F (conn_key l r) p now s v)
