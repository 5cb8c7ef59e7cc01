-- ===== src/Session/Meeting/Runs.antt =====
-- Two sessions of src/session.rs whose handshake is sent and arrives.
use nkn_sdk_rust.Prelude.{
  ◌≡◌, refl, Bool, true, false, Option, none, List, [], ◌∷◌, arith, Bytes, replicate,
  length-replicate, here, ℕ,
}
use nkn_sdk_rust.Prelude.Int.{to_u32}
use nkn_sdk_rust.Floats.{whole}
use nkn_sdk_rust.Connection.{default_ncp_config}
use nkn_sdk_rust.Connection.Tasks.{Send}
use nkn_sdk_rust.Session.{Session, Packet, new}
use nkn_sdk_rust.Session.Handshake.{dial, send_handshake_packet, send_to_self}
use nkn_sdk_rust.Session.Receive.{receive_with}
use nkn_sdk_rust.Session.Meeting.{fields_len, HoldsFields, Pair, met, swaps, dials, receives}
use nkn_sdk_rust.Session.Meeting.Unmet.{sessions_never_meet}

abbrev padded : Packet → Bytes
padded p = replicate (fields_len p) 0

padded-HoldsFields : HoldsFields padded
padded-HoldsFields p = omega (arith, length-replicate {A = ℕ} (fields_len p) 0)

abbrev decode : Bytes → Option Packet
decode bytes = none

abbrev send_with : Send → Bool
send_with c = true

abbrev my_ids : List Bytes
my_ids = (b'a' ∷ []) ∷ (b'b' ∷ []) ∷ []

abbrev your_ids : List Bytes
your_ids = (b'x' ∷ []) ∷ []

abbrev mine : Session whole
mine = new whole default_ncp_config [] [] my_ids [] 7

abbrev yours : Session whole
yours = new whole default_ncp_config [] [] your_ids [] 8

abbrev dialled : Session whole
unfolding new
dialled = record mine { is_accepted = true }

abbrev packet : Bytes
packet = replicate 14 0

abbrev handshake_dropped :
    Pair whole padded decode send_with mine yours yours dialled (packet ∷ packet ∷ [])
unfolding new dial send_handshake_packet send_to_self receive_with to_u32
handshake_dropped = receives [] [] packet 9 (swaps (dials met refl)) (here refl) refl

sessions_never_meet_example : (yours.is_established ≡ false) × (dialled.is_established ≡ false)
unfolding to_u32
sessions_never_meet_example =
    sessions_never_meet whole padded decode send_with default_ncp_config default_ncp_config [] []
      my_ids your_ids [] [] 7 8 padded-HoldsFields (omega arith) (omega arith) (omega arith)
      (omega arith) handshake_dropped
