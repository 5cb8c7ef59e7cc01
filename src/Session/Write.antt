-- ===== src/Session/Write.antt =====
-- src/session.rs: `write`, `wait_for_send_window`, `flush_send_buffer` and the loops that flush and
-- that report the bytes read.
use Prim.Native.String.{String}
use nkn_sdk_rust.Prelude.{
  ℕ, ◌+◌, ◌-◌, ◌/◌, ◌%◌, ◌^◌, Bool, true, false, ◌&&◌, ◌||◌, List, [], ◌∷◌, ◌++◌, ltb, leb, ◌==◌,
  if◌then◌else◌, length, drop, Bytes, insert, nat_eq, map,
}
use nkn_sdk_rust.Prelude.Int.{pos, to_u64}
use nkn_sdk_rust.Floats.{F64}
use nkn_sdk_rust.Sequence.{next_seq}
use nkn_sdk_rust.Connection.{Connection, millis}
use nkn_sdk_rust.Connection.Tasks.{Send}
use nkn_sdk_rust.Session.{
  Session, Packet, default_packet, Run, done, panicked, blocked, ◌>>=◌, send, is_stream,
  send_window_used, zeros,
}

-- src/error.rs, `NcpError`.
pub data NcpError : Type 0 where
  io : String → NcpError
  session_not_established session_closed buffer_empty buffer_too_large : NcpError
  session_already_accepted undefined_connection : NcpError

pub data WriteResult : Type 0 where
  wrote : ℕ → WriteResult
  refused : NcpError → WriteResult

-- `send_buffer[..buf.len()].copy_from_slice(buf)`, which panics where `buf` is the longer one.
abbrev pub copy_to_front : Bytes → Bytes → Run Bytes
copy_to_front buf buffer =
    if leb (length buf) (length buffer) then done (buf ++ drop (length buf) buffer) else panicked

abbrev pub data_packet : ℕ → Bytes → Packet
data_packet seq contents = record default_packet { sequence_id = seq; contents = contents }

module _ (F : F64) where
  -- The tests of `start_check_bytes_read`, at time `now`, in nanoseconds.
  abbrev pub bytes_read_due : Session F → ℕ → Bool
  bytes_read_due s now =
      let recent =
        ltb now (s.bytes_read_update_time + millis (to_u64 s.config.send_bytes_read_threshold)) in
      if s.bytes_read == 0 || leb s.bytes_read_update_time s.bytes_read_sent_time || recent
      then false
      else true

module _ (F : F64) (encode : Packet → Bytes) where
  -- The buffer is an array of 1024 bytes, so `len() == 0` is a test of that length.
  unfoldable pub flush_send_buffer : Session F → Run (Session F)
  flush_send_buffer s =
      let seq = s.send_window_end_seq in
      if length s.send_buffer == 0
      then done s
      else send s.send_chan seq >>= λ send_chan. done (record s {
        send_window_data = insert seq (encode (data_packet seq s.send_buffer)) s.send_window_data;
        send_window_end_seq = next_seq seq (pos 1);
        send_buffer = zeros;
        send_chan = send_chan;
      })

  -- One round of `start_flush`.
  unfoldable pub flush_round : Session F → Run (Session F)
  unfolding flush_send_buffer
  flush_round s = if ltb 0 (length s.send_buffer) then flush_send_buffer s else done s

  -- The wait ends when the window has room for `n` more bytes; until then nothing in `write` moves.
  unfoldable pub wait_for_send_window : Session F → ℕ → Run ℕ
  unfolding send_window_used
  wait_for_send_window s n =
      let used = send_window_used F s in
      if ltb s.send_window_size ((used + n) % 2 ^ 32)
      then blocked
      else done ((s.send_window_size + 2 ^ 32 - used) % 2 ^ 32)

  -- Streams are not implemented: `write` returns 0 for them.
  abbrev write_packet : Session F → Bytes → Run (WriteResult × Session F)
  write_packet s buf = wait_for_send_window s (length buf % 2 ^ 32) >>= λ room.
      copy_to_front buf s.send_buffer >>= λ buffer.
      flush_send_buffer
        (record s { send_buffer = buffer; bytes_write = (s.bytes_write + length buf) % 2 ^ 64 })
      >>= λ s'. done (wrote (length buf), s')

  unfoldable pub write : Session F → Bytes → Run (WriteResult × Session F)
  unfolding wait_for_send_window flush_send_buffer
  write s buf =
      if s.is_established
      then if s.is_closed
        then done (refused session_closed, s)
        else if length buf == 0
        then done (refused buffer_empty, s)
        else if s.config.non_stream && ltb s.send_mtu (length buf)
            || ltb s.send_window_size (length buf)
        then done (refused buffer_too_large, s)
        else if is_stream F s
        then done (wrote 0, s)
        else write_packet s buf
      else done (refused session_not_established, s)

  -- One packet for each connection.
  abbrev pub bytes_read_sends : Session F → List Send
  bytes_read_sends s =
      let buf = encode (record default_packet { bytes_read = s.bytes_read }) in
      map
        (λ (entry : Bytes × Connection F). record {
          from = entry.1.local_client_id;
          to = entry.1.remote_client_id;
          buf = buf;
          timeout = millis (entry.1.retransmission_timeout / 1_000_000);
        })
        s.connections

  abbrev mark_sent : Session F → List Send → ℕ → Session F
  mark_sent s [] now = s
  mark_sent s (x ∷ xs) now = record s { bytes_read_sent_time = now }

  -- A round of the method `start_check_bytes_read`, and of the free function of that name, which
  -- `start_session` runs.
  unfoldable pub check_bytes_read_method : Session F → ℕ → List Send × Session F
  check_bytes_read_method s now =
      if bytes_read_due F s now
      then (bytes_read_sends s, mark_sent s (bytes_read_sends s) now)
      else ([], s)

  unfoldable pub check_bytes_read : Session F → ℕ → List Send × Session F
  check_bytes_read s now = if bytes_read_due F s now then (bytes_read_sends s, s) else ([], s)
