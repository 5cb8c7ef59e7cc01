-- ===== src/Session/Read.antt =====
-- src/session.rs: `read`. The call keeps the lock of the received data while it waits, so the data
-- stays as it is during the wait.
use nkn_sdk_rust.Prelude.{
  ℕ, zero, suc, ◌+◌, ◌-◌, ◌%◌, ◌^◌, not, ◌&&◌, none, some, ◌++◌, ltb, leb, ◌==◌, if◌then◌else◌,
  length, take, drop, Bytes, lookup, insert, remove, nat_eq,
}
use nkn_sdk_rust.Prelude.Int.{pos}
use nkn_sdk_rust.Floats.{F64}
use nkn_sdk_rust.Sequence.{next_seq}
use nkn_sdk_rust.Session.{Session, Run, done, panicked, blocked, is_stream}

-- The caller's buffer and what `read` returns.
pub record ReadResult (F : F64) : Type 0 where
  pub buf : Bytes
  pub count : ℕ
  pub session : Session F

module _ (F : F64) where
  -- What one round takes over: bytes that fill the buffer, or all of a packet.
  abbrev take_part : Session F → ℕ → Bytes → Bytes → Session F
  take_part s seq contents buf =
      if leb (length buf) (length contents)
      then record s {
        recv_window_data = insert seq (drop (length buf) contents) s.recv_window_data;
      }
      else record s {
        recv_window_data = remove seq s.recv_window_data;
        recv_window_start_seq = next_seq seq (pos 1);
      }

  abbrev copy_part : Bytes → Bytes → Bytes
  copy_part contents buf =
      if leb (length buf) (length contents)
      then take (length buf) contents
      else contents ++ drop (length contents) buf

  abbrev part_length : Bytes → Bytes → ℕ
  part_length contents buf =
      if leb (length buf) (length contents) then length buf else length contents

  abbrev account : Session F → ℕ → ℕ → Session F
  account s n now = record s {
    recv_window_used = (s.recv_window_used + 2 ^ 32 - n % 2 ^ 32) % 2 ^ 32;
    bytes_read = (s.bytes_read + n) % 2 ^ 64;
    bytes_read_update_time = now;
  }

  abbrev nothing : Session F → Bytes → Run (ReadResult F)
  nothing s buf = done (record { buf = buf; count = 0; session = s })

  -- The `loop`, with the bytes received so far. A stream that is not filled waits for ever, in a
  -- loop with no body. Running out of fuel counts as waiting.
  unfoldable pub read_loop : ℕ → ℕ → Session F → Bytes → ℕ → Run (ReadResult F)
  read_loop zero received s buf now = blocked
  read_loop (suc fuel) received s buf now =
      let seq = s.recv_window_start_seq in
      elim (lookup seq s.recv_window_data) [
        | some _ ↦ done (record { buf = buf; count = received; session = s })
        | none ↦ elim (lookup seq s.recv_window_data) [
          | none ↦ panicked
          | some contents ↦
              let n = part_length contents buf in
              let s' = account (take_part s seq contents buf) n now in
              let rest = read_loop fuel n s' (copy_part contents buf) now in
              if s.config.non_stream && ltb (length buf) (length contents)
              then nothing s buf
              else if is_stream F s && ltb n (length buf)
              then blocked
              else rest
        ]
      ]

  -- A round takes a packet out or ends the loop, so one round more than there are packets will do.
  unfoldable pub read : Session F → Bytes → ℕ → Run (ReadResult F)
  unfolding read_loop
  read s buf now =
      if s.is_closed
      then nothing s buf
      else if not s.is_established
      then nothing s buf
      else if length buf == 0
      then nothing s buf
      else read_loop (suc (length s.recv_window_data)) 0 s buf now
