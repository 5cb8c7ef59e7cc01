-- ===== src/Session/Negotiation.antt =====
-- The handshake of src/session.rs: what the two ends agree on, and that it happens once.
use nkn_sdk_rust.Prelude.{
  ◌+◌, ◌≤◌, ◌<◌, ◌≡◌, ◌⊎◌, refl, Bool, true, false, none, some, List, [], ◌∷◌, arith, length, min,
  Bytes, Map, insert, bytes_eq, length-insert, ltb, if◌then◌else◌,
}
use nkn_sdk_rust.Floats.{F64}
use nkn_sdk_rust.Connection.{Connection, new_connection}
use nkn_sdk_rust.Connection.Tasks.{Send}
use nkn_sdk_rust.Session.{Session, Packet, done, panicked}
use nkn_sdk_rust.Session.Handshake.{
  conn_key, new_connections, handle_handshake_packet, dial, accept, send_close_packet,
}

module _ (F : F64) where
  length-new_connections :
      (ls rs : List Bytes) (size : F.Float) (m : Map Bytes (Connection F))
      → length (new_connections F ls rs size m) ≤ min (length ls) (length rs) + length m
  unfolding new_connections
  length-new_connections [] rs size m = omega arith
  length-new_connections (l ∷ ls) [] size m = omega arith
  length-new_connections (l ∷ ls) (r ∷ rs) size m = omega (
    arith,
    length-new_connections ls rs size (insert (conn_key l r) (new_connection F l r size) m),
    length-insert (conn_key l r) (new_connection F l r size) m,
  )

  -- A first handshake with a window, an MTU and client ids establishes the session: each limit is
  -- the smaller of the two ends' limits, the remote ids are those of the packet, and there are no
  -- more connections than either end has ids.
  pub handle_handshake_packet_agrees :
      (s : Session F) (p : Packet)
      → s.is_established ≡ false
      → s.on_accept ≡ none
      → 0 < p.window_size
      → 0 < p.mtu
      → 0 < length p.client_ids
      → (s' : Session F) × (handle_handshake_packet F s p ≡ done s')
        × (s'.is_established ≡ true)
        × (s'.send_window_size ≡ min s.send_window_size p.window_size)
        × (s'.send_mtu ≡ min s.send_mtu p.mtu)
        × (s'.remote_client_ids ≡ p.client_ids)
        × (length s'.connections ≤ min (length s.local_client_ids) (length p.client_ids))
  unfolding handle_handshake_packet
  handle_handshake_packet_agrees s p e a hw hm hi =
      let window =
        if ltb p.window_size s.send_window_size then p.window_size else s.send_window_size in
      let mtu = if ltb p.mtu s.send_mtu then p.mtu else s.send_mtu in
      let count = F.div (F.of_nat window) (F.of_nat mtu) in
      let n = min (length s.local_client_ids) (length p.client_ids) in
      let size = F.div count (F.of_nat n) in
      (
        record s {
          send_window_size = window;
          send_mtu = mtu;
          send_window_packet_count = count;
          connections = new_connections F s.local_client_ids p.client_ids size [];
          remote_client_ids = p.client_ids;
          is_established = true;
          on_accept = some tt;
        },
        ground arith,
        refl,
        ground arith,
        ground arith,
        refl,
        ground (arith, length-new_connections s.local_client_ids p.client_ids size []),
      )

  -- A handshake with a window but with no MTU or no client ids does not establish the session, and
  -- lowers its send window all the same; with no MTU the session's own MTU stays.
  handle_handshake_packet_incomplete :
      (s : Session F) (p : Packet)
      → s.is_established ≡ false
      → 0 < p.window_size
      → (p.mtu ≡ 0) ⊎ (p.client_ids ≡ [])
      → (s' : Session F) × (handle_handshake_packet F s p ≡ done s')
        × (s'.is_established ≡ false)
        × (s'.send_window_size ≡ min s.send_window_size p.window_size)
        × (s'.send_mtu ≡ (if ltb 0 p.mtu then min s.send_mtu p.mtu else s.send_mtu))
  unfolding handle_handshake_packet
  handle_handshake_packet_incomplete s p e hw h =
      let window =
        if ltb p.window_size s.send_window_size then p.window_size else s.send_window_size in
      let mtu = if ltb p.mtu s.send_mtu then p.mtu else s.send_mtu in
      let count = F.div (F.of_nat window) (F.of_nat mtu) in
      let lowered : Session F = record s { send_window_size = window } in
      (
        if ltb 0 p.mtu
            then record lowered { send_mtu = mtu; send_window_packet_count = count }
            else lowered,
        ground arith,
        ground arith,
        ground arith,
        ground arith,
      )

  -- No handshake packet raises a limit or makes one zero.
  pub handle_handshake_packet_limits :
      (s : Session F) (p : Packet) {s' : Session F}
      → 0 < s.send_window_size
      → 0 < s.send_mtu
      → handle_handshake_packet F s p ≡ done s'
      → (0 < s'.send_window_size)
        × (s'.send_window_size ≤ s.send_window_size)
        × (0 < s'.send_mtu)
        × (s'.send_mtu ≤ s.send_mtu)
  unfolding handle_handshake_packet
  handle_handshake_packet_limits s p hw hm h = ground arith

module _ (F : F64) (encode : Packet → Bytes) (send_with : Send → Bool) where
  -- After a `dial` or an `accept` that returned, either one sends nothing and changes nothing.
  dial_once :
      (s : Session F) {s' : Session F}
      → ((dial F encode send_with s).result ≡ done s')
        ⊎ ((accept F encode send_with s).result ≡ done s')
      → (dial F encode send_with s' ≡ record { sent = []; result = done s' })
        × (accept F encode send_with s' ≡ record { sent = []; result = done s' })
  unfolding dial accept
  dial_once s h = ground arith

  -- `send_close_packet` never returns on an established session: it sends to one connection at most,
  -- and panics.
  send_close_packet_panics :
      (s : Session F)
      → s.is_established ≡ true
      → ((send_close_packet F encode send_with s).result ≡ panicked)
        × (length (send_close_packet F encode send_with s).sent ≤ 1)
  unfolding send_close_packet
  send_close_packet_panics s e = ground arith
