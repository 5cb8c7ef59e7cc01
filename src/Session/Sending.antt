-- ===== src/Session/Sending.antt =====
-- `write` and the two background loops of src/session.rs.
use nkn_sdk_rust.Prelude.{
  ℕ, ◌+◌, ◌%◌, ◌^◌, ◌≤◌, ◌<◌, ◌≡◌, ◌≢◌, ◌⊎◌, refl, true, false, none, some, [], ◌++◌, arith, length,
  length-append, length-drop, drop, Bytes, lookup, insert, nat_eq, lookup-insert,
}
use nkn_sdk_rust.Prelude.Int.{pos}
use nkn_sdk_rust.Floats.{F64}
use nkn_sdk_rust.Sequence.{next_seq}
use nkn_sdk_rust.Session.{
  Session, Packet, done, panicked, blocked, buffer_size, zeros, send_window_used, get_seq,
  get_data_to_send,
}
use nkn_sdk_rust.Session.Write.{
  write, wrote, refused, NcpError, io, session_not_established, session_closed, buffer_empty,
  buffer_too_large, session_already_accepted, undefined_connection, flush_round, data_packet,
  check_bytes_read_method, check_bytes_read, bytes_read_due, bytes_read_sends,
}

module _ (F : F64) (encode : Packet → Bytes) where
  -- What a `write` asks of the session, for `n` bytes.
  pub record CanWrite (s : Session F) (n : ℕ) : Type 0 where
    pub established : s.is_established ≡ true
    pub still_open : s.is_closed ≡ false
    pub by_packets : s.config.non_stream ≡ true
    pub some_bytes : 0 < n
    pub within_mtu : n ≤ s.send_mtu
    pub within_window : n ≤ s.send_window_size
    pub buffer_whole : length s.send_buffer ≡ buffer_size
    pub within_buffer : n ≤ buffer_size
    pub room : (send_window_used F s + n) % 2 ^ 32 ≤ s.send_window_size
    pub idle : s.send_chan ≡ none

  -- The session after it.
  abbrev pub written : Session F → Bytes → Session F
  written s buf =
      let seq = s.send_window_end_seq in
      let contents = buf ++ drop (length buf) s.send_buffer in
      record s {
        send_buffer = zeros;
        bytes_write = (s.bytes_write + length buf) % 2 ^ 64;
        send_window_data = insert seq (encode (data_packet seq contents)) s.send_window_data;
        send_window_end_seq = next_seq seq (pos 1);
        send_chan = some seq;
      }

  -- Where it may, `write` takes all of the bytes: it puts one packet under the next sequence number
  -- into the send window and hands that number to the connections. The packet's data are the bytes
  -- and what the buffer held behind them.
  pub write_lem :
      (s : Session F) (buf : Bytes)
      → CanWrite s (length buf)
      → write F encode s buf ≡ done (wrote (length buf), written s buf)
  unfolding write
  write_lem s buf c = ground (
    arith,
    length-append buf (drop (length buf) s.send_buffer),
    length-drop (length buf) s.send_buffer,
  )

  -- Such a `write` takes all of the bytes, and what it queued comes out: the connection that takes the
  -- number off the channel finds a packet with that number and these bytes in front, and under every
  -- other number what was there before.
  pub get_data_to_send-write :
      (s : Session F) (buf : Bytes)
      → CanWrite s (length buf)
      → (s' : Session F) × (write F encode s buf ≡ done (wrote (length buf), s'))
        × (seq : ℕ) × (get_seq s'.send_chan ≡ done (seq, none))
        × (rest : Bytes) × (length (buf ++ rest) ≡ buffer_size)
        × (get_data_to_send F s' seq ≡ done (encode (data_packet seq (buf ++ rest))))
        × ((other : ℕ) → other ≢ seq → get_data_to_send F s' other ≡ get_data_to_send F s other)
        × (s'.send_window_end_seq ≡ next_seq seq (pos 1))
  unfolding get_data_to_send get_seq
  get_data_to_send-write s buf c =
      let seq = s.send_window_end_seq in
      let rest = drop (length buf) s.send_buffer in
      let packet = encode (data_packet seq (buf ++ rest)) in
      (
        written s buf,
        write_lem s buf c,
        seq,
        refl,
        rest,
        omega (
          arith,
          c.buffer_whole,
          c.within_buffer,
          length-append buf rest,
          length-drop (length buf) s.send_buffer,
        ),
        ground (arith, lookup-insert seq seq packet s.send_window_data),
        λ other apart. ground (arith, lookup-insert seq other packet s.send_window_data),
        refl,
      )

  -- The first reason for which a `write` of these bytes is refused, for each error.
  abbrev pub Because : Session F → Bytes → NcpError → Type 0
  Because s buf session_not_established = s.is_established ≡ false
  Because s buf session_closed = (s.is_established ≡ true) × (s.is_closed ≡ true)
  Because s buf buffer_empty = (s.is_established ≡ true) × (s.is_closed ≡ false) × (length buf ≡ 0)
  Because s buf buffer_too_large =
      (s.is_established ≡ true)
      × (s.is_closed ≡ false)
      × (0 < length buf)
      × ((s.send_window_size < length buf)
          ⊎ ((s.config.non_stream ≡ true) × (s.send_mtu < length buf)))
  Because s buf other = ⊥

  -- A `write` is refused with an error exactly where its reason is the first that holds, in this
  -- order: the session is not established, it is closed, there are no bytes, or there are more than
  -- the window or, without streams, the MTU. No other error is given, and the session stays as it was.
  pub write_refused :
      (s : Session F) (buf : Bytes) (e : NcpError)
      → ((s' : Session F)
          → write F encode s buf ≡ done (refused e, s')
          → (s' ≡ s) × Because s buf e)
        × (Because s buf e → write F encode s buf ≡ done (refused e, s))
  unfolding write
  write_refused s buf session_not_established = (λ s' h. ground arith, λ b. ground arith)
  write_refused s buf session_closed = (λ s' h. ground arith, λ b. ground arith)
  write_refused s buf buffer_empty = (λ s' h. ground arith, λ b. ground arith)
  write_refused s buf buffer_too_large = (λ s' h. ground arith, λ b. ground arith)
  write_refused s buf session_already_accepted = (λ s' h. ground arith, λ b. absurd b)
  write_refused s buf undefined_connection = (λ s' h. ground arith, λ b. absurd b)
  write_refused s buf (io text) = (λ s' h. ground arith, λ b. absurd b)

  -- A `write` of more bytes than the buffer of the session has panics, where the MTU and the window
  -- allow it and the window has room.
  write_overflow :
      (s : Session F) (buf : Bytes)
      → s.is_established ≡ true
      → s.is_closed ≡ false
      → s.config.non_stream ≡ true
      → length s.send_buffer < length buf
      → length buf ≤ s.send_mtu
      → length buf ≤ s.send_window_size
      → (send_window_used F s + length buf % 2 ^ 32) % 2 ^ 32 ≤ s.send_window_size
      → write F encode s buf ≡ panicked
  unfolding write
  write_overflow s buf e o n b m w r = ground arith

  -- A packet is queued at every flush, also where nothing was written since the last one: then its
  -- data are 1024 zeros.
  flush_round_idle :
      (s : Session F)
      → s.send_buffer ≡ zeros
      → s.send_chan ≡ none
      → (s' : Session F) × (flush_round F encode s ≡ done s')
        × (lookup s.send_window_end_seq s'.send_window_data
            ≡ some (encode (data_packet s.send_window_end_seq zeros)))
        × (s'.send_window_end_seq ≡ next_seq s.send_window_end_seq (pos 1))
  unfolding flush_round
  flush_round_idle s b i =
      let seq = s.send_window_end_seq in
      (
        record s {
          send_window_data = insert seq (encode (data_packet seq s.send_buffer)) s.send_window_data;
          send_window_end_seq = next_seq seq (pos 1);
          send_buffer = zeros;
          send_chan = some seq;
        },
        ground arith,
        rw b (
            ground
              (arith, lookup-insert seq seq (encode (data_packet seq zeros)) s.send_window_data)),
        refl,
      )

  -- Until the number that a `write` or a flush handed over is taken, the next flush waits.
  flush_round_full :
      (s : Session F) (seq : ℕ)
      → 0 < length s.send_buffer
      → s.send_chan ≡ some seq
      → flush_round F encode s ≡ blocked
  unfolding flush_round
  flush_round_full s seq b i = ground arith

  -- A session with connections that told them of the bytes read by the method
  -- `start_check_bytes_read` does not do so again before more is read; by the free function of that
  -- name, which `start_session` runs, it sends the same packets in every later round.
  check_bytes_read_repeats :
      (s : Session F) (now later : ℕ)
      → bytes_read_due F s now ≡ true
      → now ≤ later
      → 0 < length s.connections
      → (let s' = (check_bytes_read_method F encode s now).1 in
          check_bytes_read_method F encode s' later ≡ ([], s'))
        × (check_bytes_read F encode s now ≡ (bytes_read_sends F encode s, s))
        × (check_bytes_read F encode s later ≡ (bytes_read_sends F encode s, s))
  unfolding check_bytes_read_method check_bytes_read
  check_bytes_read_repeats s now later d h c = ground arith
