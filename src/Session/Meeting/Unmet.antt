-- ===== src/Session/Meeting/Unmet.antt =====
-- Two sessions of src/session.rs whose handshakes do not get through.
use nkn_sdk_rust.Prelude.{
  ℕ, ◌^◌, ◌≤◌, ◌<◌, ◌≡◌, refl, Bool, true, false, Option, List, [], ◌∷◌, arith, if◌then◌else◌,
  length, Bytes, nat_eq, IsIn, here, there, inl, inr, All, Bool-cases, sym, ◌∙◌, All-append,
}
use nkn_sdk_rust.Floats.{F64}
use nkn_sdk_rust.Prelude.Int.{to_u32}
use nkn_sdk_rust.Connection.{NcpConfig, millis}
use nkn_sdk_rust.Connection.Tasks.{Send}
use nkn_sdk_rust.Session.{Session, Packet, done, panicked, new}
use nkn_sdk_rust.Session.Handshake.{
  Sends, dial, accept, send_handshake_packet, handshake_packet, send_to_self, send_to_each,
  after_one, send_pairs, open_once,
}
use nkn_sdk_rust.Session.Write.{write, WriteResult, flush_round}
use nkn_sdk_rust.Session.Receive.{receive_with}
use nkn_sdk_rust.Session.Read.{read, ReadResult}
use nkn_sdk_rust.Session.Meeting.{
  HoldsFields, bufs, Pair, met, swaps, dials, accepts, receives, writes, flushes, reads,
}

module _ (send_with : Send → Bool) (buf : Bytes) (timeout : ℕ) where
  -- Every packet is the one that the caller gives.
  abbrev AllAre : Sends (Unit {0}) → Type 0
  AllAre r = All (λ b. b ≡ buf) (bufs r.sent)

  after_one-AllAre :
      (call : Send) (succeeds : Bool) (rest : Sends (Unit {0}))
      → call.buf ≡ buf
      → AllAre rest
      → AllAre (
          after_one send_with buf timeout
            (record { sent = call ∷ []; result = if succeeds then done tt else panicked })
            rest)
  after_one-AllAre call true rest e h = (e, h)
  after_one-AllAre call false rest e h = (e, tt)

  send_to_self-AllAre : (ls : List Bytes) → AllAre (send_to_self send_with buf timeout ls)
  unfolding send_to_self
  send_to_self-AllAre [] = tt
  send_to_self-AllAre (l ∷ ls) =
      let call : Send = record { from = l; to = l; buf = buf; timeout = timeout } in
      after_one-AllAre call (send_with call) (send_to_self send_with buf timeout ls) refl
        (send_to_self-AllAre ls)

  send_to_each-AllAre : (ls rs : List Bytes) → AllAre (send_to_each send_with buf timeout ls rs)
  unfolding send_to_each
  send_to_each-AllAre [] rs = tt
  send_to_each-AllAre (l ∷ ls) [] = tt
  send_to_each-AllAre (l ∷ ls) (r ∷ rs) =
      let call : Send = record { from = l; to = r; buf = buf; timeout = timeout } in
      after_one-AllAre call (send_with call) (send_to_each send_with buf timeout ls rs) refl
        (send_to_each-AllAre ls rs)

  send_pairs-AllAre : (ls rs : List Bytes) → AllAre (send_pairs send_with buf timeout ls rs)
  send_pairs-AllAre ls [] = send_to_self-AllAre ls
  send_pairs-AllAre ls (r ∷ rs) = send_to_each-AllAre ls (r ∷ rs)

abbrev IsLong : Bytes → Type 0
IsLong buf = 10 < length buf

All-IsLong : (buf : Bytes) (xs : List Bytes) → All (λ b. b ≡ buf) xs → IsLong buf → All IsLong xs
All-IsLong buf [] h l = tt
All-IsLong buf (x ∷ xs) h l = (rw h.0 l, All-IsLong buf xs h.1 l)

IsIn-IsLong : {buf : Bytes} {xs : List Bytes} → IsIn buf xs → All IsLong xs → IsLong buf
IsIn-IsLong (here e) h = rw e at h.0
IsIn-IsLong (there i) h = IsIn-IsLong i h.1

module _ (F : F64) (encode : Packet → Bytes) (decode : Bytes → Option Packet)
    (send_with : Send → Bool) where
  -- A session that is not established, and whose own handshake could establish another.
  pub record CanMeet (s : Session F) : Type 0 where
    pub not_established : s.is_established ≡ false
    pub no_connections : s.connections ≡ []
    pub some_window : 2 ^ 21 ≤ s.recv_window_size
    pub some_mtu : 0 < s.recv_mtu
    pub some_id : 0 < length s.local_client_ids

  handshake_packet-IsLong :
      (s : Session F)
      → HoldsFields encode
      → CanMeet s
      → IsLong (encode (handshake_packet F encode send_with s))
  handshake_packet-IsLong s holds m =
      grind
        (arith, holds (handshake_packet F encode send_with s), m.some_window, m.some_mtu, m.some_id)

  send_handshake_packet-IsLong :
      (s : Session F) (timeout : ℕ)
      → HoldsFields encode
      → CanMeet s
      → All IsLong (bufs (send_handshake_packet F encode send_with s timeout).sent)
  unfolding send_handshake_packet
  send_handshake_packet-IsLong s timeout holds m =
      let buf = encode (handshake_packet F encode send_with s) in
      let pairs = send_pairs send_with buf timeout s.local_client_ids s.remote_client_ids in
      rw m.no_connections (
        All-IsLong buf (bufs pairs.sent)
          (send_pairs-AllAre send_with buf timeout s.local_client_ids s.remote_client_ids)
          (handshake_packet-IsLong s holds m))

  open_once-CanMeet :
      (s : Session F) (timeout : ℕ) {s' : Session F}
      → HoldsFields encode
      → CanMeet s
      → (open_once F encode send_with s timeout).result ≡ done s'
      → CanMeet s' × All IsLong (bufs (open_once F encode send_with s timeout).sent)
  open_once-CanMeet s timeout holds m e =
      let opened = record s { is_accepted = true } in
      let m' : CanMeet opened = ground arith in
      elim (Bool-cases s.is_accepted) [
        | inl yet ↦ (ground arith, rw yet tt)
        | inr first ↦
            (ground arith, rw first (send_handshake_packet-IsLong opened timeout holds m'))
      ]

  receive_with-IsLong :
      (l r buf : Bytes) (now : ℕ) (s : Session F)
      → IsLong buf
      → receive_with F decode l r buf now s ≡ done s
  unfolding receive_with
  receive_with-IsLong l r buf now s long = ground arith

  write-CanMeet :
      (s : Session F) (buf : Bytes) {r : WriteResult} {s' : Session F}
      → CanMeet s
      → write F encode s buf ≡ done (r, s')
      → CanMeet s'
  unfolding write
  write-CanMeet s buf m e = ground arith

  flush_round-CanMeet :
      (s : Session F) {s' : Session F} → CanMeet s → flush_round F encode s ≡ done s' → CanMeet s'
  unfolding flush_round
  flush_round-CanMeet s m e = ground arith

  read-CanMeet :
      (s : Session F) (buf : Bytes) (now : ℕ) (r : ReadResult F)
      → CanMeet s
      → read F s buf now ≡ done r
      → CanMeet r.session
  unfolding read
  read-CanMeet s buf now r m e = ground arith

  -- Each session's invariant, and that of the packets between them.
  Pair-CanMeet :
      {a b s t : Session F} {wire : List Bytes}
      → HoldsFields encode
      → CanMeet a
      → CanMeet b
      → Pair F encode decode send_with a b s t wire
      → CanMeet s × CanMeet t × All IsLong wire
  unfolding dial accept
  Pair-CanMeet holds ma mb met = (ma, mb, tt)
  Pair-CanMeet holds ma mb (swaps p) =
      let (ms, mt, long) = Pair-CanMeet holds ma mb p in (mt, ms, long)
  Pair-CanMeet holds ma mb (dials {s} {s'} p e) =
      let (ms, mt, long) = Pair-CanMeet holds ma mb p in
      let (ms', sent) =
        open_once-CanMeet s (millis s.config.initial_retransmission_timeout) {s' = s'} holds ms e in
      (ms', mt, All-append IsLong (bufs (dial F encode send_with s).sent) _ sent long)
  Pair-CanMeet holds ma mb (accepts {s} {s'} p e) =
      let (ms, mt, long) = Pair-CanMeet holds ma mb p in
      let (ms', sent) =
        open_once-CanMeet s (millis s.config.max_retransmission_timeout) {s' = s'} holds ms e in
      (ms', mt, All-append IsLong (bufs (accept F encode send_with s).sent) _ sent long)
  Pair-CanMeet holds ma mb (receives {s} {s'} l r buf now p i e) =
      let (ms, mt, long) = Pair-CanMeet holds ma mb p in
      let same = sym e ∙ receive_with-IsLong l r buf now s (IsIn-IsLong i long) in
      (ground arith, mt, long)
  Pair-CanMeet holds ma mb (writes {s} {s'} buf r p e) =
      let (ms, mt, long) = Pair-CanMeet holds ma mb p in
      (write-CanMeet s buf {r = r} {s' = s'} ms e, mt, long)
  Pair-CanMeet holds ma mb (flushes {s} {s'} p e) =
      let (ms, mt, long) = Pair-CanMeet holds ma mb p in
      (flush_round-CanMeet s {s' = s'} ms e, mt, long)
  Pair-CanMeet holds ma mb (reads {s} buf now r p e) =
      let (ms, mt, long) = Pair-CanMeet holds ma mb p in (read-CanMeet s buf now r ms e, mt, long)

  new-CanMeet :
      (config : NcpConfig) (la ra : Bytes) (ls rs : List Bytes) (now : ℕ)
      → 0 < to_u32 config.mtu
      → 0 < length ls
      → CanMeet (new F config la ra ls rs now)
  unfolding new
  new-CanMeet config la ra ls rs now mtu id = ground arith

  -- Two new sessions with an MTU and client ids that hear only of each other are never established,
  -- however they dial, accept, write, flush and read, and whichever packets of their handshakes
  -- arrive: `receive_with` drops each of those, which has more than ten bytes where the encoding has
  -- room for the fields of a packet.
  pub sessions_never_meet :
      (config config' : NcpConfig) (addr addr' : Bytes) (ids ids' remote remote' : List Bytes)
      (now now' : ℕ) {s t : Session F} {wire : List Bytes}
      → HoldsFields encode
      → 0 < to_u32 config.mtu
      → 0 < to_u32 config'.mtu
      → 0 < length ids
      → 0 < length ids'
      → Pair F encode decode send_with
          (new F config addr addr' ids remote now)
          (new F config' addr' addr ids' remote' now')
          s
          t
          wire
      → (s.is_established ≡ false) × (t.is_established ≡ false)
  sessions_never_meet config config' addr addr' ids ids' remote remote' now now' holds mtu mtu' id
        id' pair =
      let (ms, mt, long) =
        Pair-CanMeet holds (new-CanMeet config addr addr' ids remote now mtu id)
          (new-CanMeet config' addr' addr ids' remote' now' mtu' id') pair in
      (ms.not_established, mt.not_established)
