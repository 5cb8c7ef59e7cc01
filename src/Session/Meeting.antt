-- ===== src/Session/Meeting.antt =====
-- Two sessions of src/session.rs that only hear of each other, and the sizes of their packets in the
-- wire format of protos/packet.proto, which generated code writes.
pub mod Unmet
mod Runs
use nkn_sdk_rust.Prelude.{
  ℕ, ◌+◌, ◌*◌, ◌^◌, ◌≤◌, ◌≡◌, Bool, Option, List, [], ◌++◌, map, ltb, if◌then◌else◌, length, Bytes,
  nat_eq, IsIn,
}
use nkn_sdk_rust.Floats.{F64}
use nkn_sdk_rust.Connection.Tasks.{Send}
use nkn_sdk_rust.Session.{Session, Packet, done}
use nkn_sdk_rust.Session.Handshake.{dial, accept}
use nkn_sdk_rust.Session.Write.{write, WriteResult, flush_round}
use nkn_sdk_rust.Session.Receive.{receive_with}
use nkn_sdk_rust.Session.Read.{read, ReadResult}

-- The bytes of a varint that fits a u32.
abbrev pub varint_len : ℕ → ℕ
varint_len n =
    if ltb n (2 ^ 7)
    then 1
    else if ltb n (2 ^ 14)
    then 2
    else if ltb n (2 ^ 21)
    then 3
    else if ltb n (2 ^ 28)
    then 4
    else 5

-- A number that is 0 is left out, else it takes a byte for its field and those of its varint.
abbrev pub number_len : ℕ → ℕ
number_len n = if ltb 0 n then 1 + varint_len n else 0

-- Each text takes a byte for its field and at least one for its length, and so does a true flag.
abbrev pub fields_len : Packet → ℕ
fields_len p =
    number_len p.window_size
    + number_len p.mtu
    + (if p.handshake then 2 else 0)
    + 2 * length p.client_ids

-- The encoding has room for these fields.
abbrev pub HoldsFields : (Packet → Bytes) → Type 0
HoldsFields encode = (p : Packet) → fields_len p ≤ length (encode p)

abbrev pub bufs : List Send → List Bytes
bufs = map (λ c. c.buf)

module _ (F : F64) (encode : Packet → Bytes) (decode : Bytes → Option Packet)
    (send_with : Send → Bool) (a b : Session F) where
  -- Two sessions, and the packets of their handshakes that were sent: each may be lost, or arrive
  -- any number of times. A session has no connections, and so sends nothing else, until it is
  -- established.
  pub data Pair : Session F → Session F → List Bytes → Type 0 where
    met : Pair a b []
    swaps : {s t : Session F} {wire : List Bytes} → Pair s t wire → Pair t s wire
    dials :
        {s t s' : Session F} {wire : List Bytes}
        → Pair s t wire
        → (dial F encode send_with s).result ≡ done s'
        → Pair s' t (bufs (dial F encode send_with s).sent ++ wire)
    accepts :
        {s t s' : Session F} {wire : List Bytes}
        → Pair s t wire
        → (accept F encode send_with s).result ≡ done s'
        → Pair s' t (bufs (accept F encode send_with s).sent ++ wire)
    receives :
        {s t s' : Session F} {wire : List Bytes} (l r buf : Bytes) (now : ℕ)
        → Pair s t wire
        → IsIn buf wire
        → receive_with F decode l r buf now s ≡ done s'
        → Pair s' t wire
    writes :
        {s t s' : Session F} {wire : List Bytes} (buf : Bytes) (r : WriteResult)
        → Pair s t wire
        → write F encode s buf ≡ done (r, s')
        → Pair s' t wire
    flushes :
        {s t s' : Session F} {wire : List Bytes}
        → Pair s t wire
        → flush_round F encode s ≡ done s'
        → Pair s' t wire
    reads :
        {s t : Session F} {wire : List Bytes} (buf : Bytes) (now : ℕ) (r : ReadResult F)
        → Pair s t wire
        → read F s buf now ≡ done r
        → Pair r.session t wire
