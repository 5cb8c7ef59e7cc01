-- ===== src/Session/Handshake.antt =====
-- src/session.rs: `dial`, `accept`, the handshake and the close packet; `conn_key` of src/utils.rs.
-- What `send_with` returns is an argument, and what is sent stands beside the result, since a call
-- may panic after it has sent.
use nkn_sdk_rust.Prelude.{
  ℕ, Bool, true, false, List, [], ◌∷◌, ◌++◌, ltb, ◌==◌, if◌then◌else◌, length, min, Bytes, Map,
  insert, bytes_eq,
}
use nkn_sdk_rust.Floats.{F64}
use nkn_sdk_rust.Connection.{Connection, new_connection, millis}
use nkn_sdk_rust.Connection.Tasks.{Send}
use nkn_sdk_rust.Session.{
  Session, Packet, default_packet, Run, done, panicked, blocked, ◌>>=◌, send,
}

-- `format!("{local_client_id} - {remote_client_id}")`
unfoldable pub conn_key : Bytes → Bytes → Bytes
conn_key local remote = local ++ (b' ' ∷ b'-' ∷ b' ' ∷ remote)

-- Calls of `send_with` in order, and how the call that makes them ends.
pub record Sends (A : Type 0) : Type 0 where
  pub sent : List Send
  pub result : Run A

abbrev pub then_done : {A B : Type 0} → Sends A → B → Sends B
then_done r b = record { sent = r.sent; result = r.result >>= λ _. done b }

module _ (send_with : Send → Bool) (buf : Bytes) (timeout : ℕ) where
  -- `send_with(..).expect(..)`
  abbrev send_one : Bytes → Bytes → Sends (Unit {0})
  send_one from to =
      let call : Send = record { from = from; to = to; buf = buf; timeout = timeout } in
      record { sent = call ∷ []; result = if send_with call then done tt else panicked }

  abbrev pub after_one : Sends (Unit {0}) → Sends (Unit {0}) → Sends (Unit {0})
  after_one first rest = elim first.result [
    | done _ ↦ record { sent = first.sent ++ rest.sent; result = rest.result }
    | panicked ↦ first
    | blocked ↦ first
  ]

  -- With no remote ids each local id goes to itself; else to the remote id of the same index.
  unfoldable pub send_to_self : List Bytes → Sends (Unit {0})
  send_to_self [] = record { sent = []; result = done tt }
  send_to_self (l ∷ ls) = let rest = send_to_self ls in after_one (send_one l l) rest

  unfoldable pub send_to_each : List Bytes → List Bytes → Sends (Unit {0})
  send_to_each [] rs = record { sent = []; result = done tt }
  send_to_each (l ∷ ls) [] = record { sent = []; result = panicked }
  send_to_each (l ∷ ls) (r ∷ rs) = let rest = send_to_each ls rs in after_one (send_one l r) rest

  abbrev pub send_pairs : List Bytes → List Bytes → Sends (Unit {0})
  send_pairs ls [] = send_to_self ls
  send_pairs ls (r ∷ rs) = send_to_each ls (r ∷ rs)

  -- The first connection, if there is one, else every pair of ids.
  abbrev send_first :
      {F : F64} → Map Bytes (Connection F) → List Bytes → List Bytes → Sends (Unit {0})
  send_first [] ls rs = send_pairs ls rs
  send_first ((key, conn) ∷ rest) ls rs = send_one conn.local_client_id conn.remote_client_id

module _ (F : F64) (encode : Packet → Bytes) (send_with : Send → Bool) where
  abbrev pub handshake_packet : Session F → Packet
  handshake_packet s = record default_packet {
    client_ids = s.local_client_ids;
    window_size = s.recv_window_size;
    mtu = s.recv_mtu;
    handshake = true;
  }

  unfoldable pub send_handshake_packet : Session F → ℕ → Sends (Unit {0})
  unfolding send_to_self send_to_each
  send_handshake_packet s timeout =
      send_first send_with (encode (handshake_packet s)) timeout s.connections s.local_client_ids
        s.remote_client_ids

  -- `dial` and `accept` differ in the timeout of the packet.
  abbrev pub open_once : Session F → ℕ → Sends (Session F)
  open_once s timeout =
      if s.is_accepted
      then record { sent = []; result = done s }
      else then_done (send_handshake_packet (record s { is_accepted = true }) timeout)
          (record s { is_accepted = true })

  unfoldable pub dial : Session F → Sends (Session F)
  dial s = open_once s (millis s.config.initial_retransmission_timeout)

  unfoldable pub accept : Session F → Sends (Session F)
  accept s = open_once s (millis s.config.max_retransmission_timeout)

  -- After the packet is sent, `select_ok` panics, since the list of tasks is empty.
  abbrev close_first : Session F → Map Bytes (Connection F) → Sends (Session F)
  close_first s [] = record { sent = []; result = panicked }
  close_first s ((key, conn) ∷ rest) =
      let buf = encode (record default_packet { close = true }) in
      let first =
        send_one send_with buf conn.retransmission_timeout conn.local_client_id
          conn.remote_client_id in
      record { sent = first.sent; result = panicked }

  unfoldable pub send_close_packet : Session F → Sends (Session F)
  send_close_packet s =
      if s.is_established
      then close_first s s.connections
      else record { sent = []; result = done s }

module _ (F : F64) where
  open F use {Float, of_nat, div}

  -- `for i in 0..n`, with `n` the shorter length.
  unfoldable pub new_connections :
      List Bytes → List Bytes → Float → Map Bytes (Connection F) → Map Bytes (Connection F)
  unfolding conn_key
  new_connections [] rs size m = m
  new_connections (l ∷ ls) [] size m = m
  new_connections (l ∷ ls) (r ∷ rs) size m =
      new_connections ls rs size (insert (conn_key l r) (new_connection F l r size) m)

  abbrev take_window : Session F → Packet → Session F
  take_window s p =
      if ltb p.window_size s.send_window_size
      then record s { send_window_size = p.window_size }
      else s

  abbrev take_mtu : Session F → Packet → Session F
  take_mtu s p =
      let mtu = if ltb p.mtu s.send_mtu then p.mtu else s.send_mtu in
      record s {
        send_mtu = mtu;
        send_window_packet_count = div (of_nat s.send_window_size) (of_nat mtu);
      }

  abbrev establish : Session F → Packet → Run (Session F)
  establish s p =
      let n = min (length s.local_client_ids) (length p.client_ids) in
      let size = div s.send_window_packet_count (of_nat n) in
      send s.on_accept tt >>= λ on_accept. done (record s {
        connections = new_connections s.local_client_ids p.client_ids size [];
        remote_client_ids = p.client_ids;
        is_established = true;
        on_accept = on_accept;
      })

  abbrev is_empty : List Bytes → Bool
  is_empty [] = true
  is_empty (x ∷ xs) = false

  unfoldable pub handle_handshake_packet : Session F → Packet → Run (Session F)
  unfolding new_connections
  handle_handshake_packet s p =
      if s.is_established
      then done s
      else if p.window_size == 0
      then done s
      else if p.mtu == 0
      then done (take_window s p)
      else if is_empty p.client_ids
      then done (take_mtu (take_window s p) p)
      else establish (take_mtu (take_window s p) p) p

  unfoldable pub handle_close_packet : Session F → Session F
  handle_close_packet s = if s.is_established then record s { is_closed = true } else s
