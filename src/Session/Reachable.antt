-- ===== src/Session/Reachable.antt =====
-- The calls on a session of src/session.rs as steps, and what holds of every session they lead to.
use nkn_sdk_rust.Prelude.{
  ℕ, ◌≤◌, ◌<◌, ◌≡◌, ◌≢◌, ◌⊎◌, Bool, Option, none, some, List, arith, length, Bytes, nat_eq,
}
use nkn_sdk_rust.Floats.{F64}
use nkn_sdk_rust.Connection.{NcpConfig}
use nkn_sdk_rust.Connection.Tasks.{Send}
use nkn_sdk_rust.Session.{Session, Packet, done, panicked, new}
use nkn_sdk_rust.Session.Handshake.{dial, accept}
use nkn_sdk_rust.Session.Write.{
  write, WriteResult, flush_round, check_bytes_read_method, data_packet,
}
use nkn_sdk_rust.Session.Receive.{receive_with}
use nkn_sdk_rust.Session.Read.{read, ReadResult}
use nkn_sdk_rust.Session.Lifecycle.{
  Inv, new-Inv, read_nothing, write-Inv, flush_round-Inv, receive_with-Inv, receive_with_ends,
}

module _ (F : F64) (encode : Packet → Bytes) (decode : Bytes → Option Packet)
    (send_with : Send → Bool) where
  -- A call that returned, or a connection that took a number or a token off a channel.
  pub data Step (s : Session F) : Session F → Type 0 where
    dials : {s' : Session F} → (dial F encode send_with s).result ≡ done s' → Step s s'
    accepts : {s' : Session F} → (accept F encode send_with s).result ≡ done s' → Step s s'
    writes :
        {s' : Session F} (buf : Bytes) (r : WriteResult)
        → write F encode s buf ≡ done (r, s')
        → Step s s'
    flushes : {s' : Session F} → flush_round F encode s ≡ done s' → Step s s'
    receives :
        {s' : Session F} (l r buf : Bytes) (now : ℕ)
        → receive_with F decode l r buf now s ≡ done s'
        → Step s s'
    reads :
        {s' : Session F} (buf : Bytes) (now : ℕ) (r : ReadResult F)
        → read F s buf now ≡ done r
        → s' ≡ r.session
        → Step s s'
    reports :
        {s' : Session F} (now : ℕ) → s' ≡ (check_bytes_read_method F encode s now).1 → Step s s'
    takes_seq : {s' : Session F} → s' ≡ record s { send_chan = none } → Step s s'
    takes_token : {s' : Session F} → s' ≡ record s { send_window_update = none } → Step s s'

  pub data Reach (s : Session F) : Session F → Type 0 where
    here : Reach s s
    next : {t u : Session F} → Reach s t → Step t u → Reach s u

  -- Every call that returns keeps the invariant: nothing is received, used or read, the bounds of
  -- the window are sequence numbers, the buffer has its length, and no token of `on_accept` is there
  -- before the session is established.
  pub Step-Inv : {s s' : Session F} → Step s s' → Inv F s → Inv F s'
  unfolding dial accept check_bytes_read_method
  Step-Inv (dials e) v = ground arith
  Step-Inv (accepts e) v = ground arith
  Step-Inv {s} {s'} (writes buf r e) v = write-Inv F encode s buf {r = r} {s' = s'} v e
  Step-Inv {s} {s'} (flushes e) v = flush_round-Inv F encode s {s' = s'} v e
  Step-Inv {s} {s'} (receives l r buf now e) v =
      receive_with-Inv F decode l r buf now s {s' = s'} v e
  Step-Inv {s} (reads buf now r e h) v = ground (arith, read_nothing F s buf now v.nothing_received)
  Step-Inv (reports now e) v = ground arith
  Step-Inv (takes_seq e) v = ground arith
  Step-Inv (takes_token e) v = ground arith

  Reach-Inv : {s s' : Session F} → Reach s s' → Inv F s → Inv F s'
  Reach-Inv here v = v
  Reach-Inv (next r st) v = Step-Inv st (Reach-Inv r v)

  module _ (config : NcpConfig) (la ra : Bytes) (ls rs : List Bytes) (start : ℕ) where
    -- Whatever calls were made on a new session and whatever was sent to it, `read` gives no data: it
    -- returns 0 with the buffer and the session as they were, or it panics.
    pub read-new :
        (s : Session F) (buf : Bytes) (now : ℕ)
        → Reach (new F config la ra ls rs start) s
        → (read F s buf now ≡ done (record { buf = buf; count = 0; session = s }))
          ⊎ (read F s buf now ≡ panicked)
    read-new s buf now r =
        read_nothing F s buf now (Reach-Inv r (new-Inv F config la ra ls rs start)).nothing_received

    -- On a session that came from a new one, `receive_with` does not panic on a packet that decodes.
    pub receive_with-new :
        (s : Session F) (l r buf : Bytes) (now : ℕ) (p : Packet)
        → Reach (new F config la ra ls rs start) s
        → decode buf ≡ some p
        → receive_with F decode l r buf now s ≢ panicked
    receive_with-new s l r buf now p reach d =
        receive_with_ends F decode l r buf now s p
          (Reach-Inv reach (new-Inv F config la ra ls rs start)) d

module _ (F : F64) (encode : Packet → Bytes) (decode : Bytes → Option Packet) where
  -- Where the encoding of a packet is at least as long as its data, a packet with more than ten bytes
  -- of data is dropped by the session that receives it: so is each packet that `write` and the flush
  -- loop make.
  receive_with_drops :
      (s : Session F) (l r : Bytes) (now seq : ℕ) (contents : Bytes)
      → ((p : Packet) → length p.contents ≤ length (encode p))
      → 10 < length contents
      → receive_with F decode l r (encode (data_packet seq contents)) now s ≡ done s
  unfolding receive_with
  receive_with_drops s l r now seq contents h long = ground (arith, h (data_packet seq contents))
