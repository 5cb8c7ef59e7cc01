-- ===== src/Session.antt =====
-- src/session.rs, the state of a `Session` and its simple operations. The locks of the source
-- protect single fields; a call is modelled as one step on the whole state, with what blocks it as
-- a result of its own.
pub mod Handshake
pub mod Write
pub mod Receive
pub mod Read
pub mod Negotiation
pub mod Sending
pub mod AckHandling
pub mod Lifecycle
pub mod Meeting
pub mod Reachable
mod Runs
use nkn_sdk_rust.Prelude.{
  ℕ, ◌≡◌, ◌⊎◌, inl, inr, refl, ◌+◌, ◌-◌, ◌*◌, ◌%◌, ◌^◌, Bool, true, false, not, ◌&&◌, ◌||◌, Option,
  none, some, List, [], ◌∷◌, ◌++◌, map, ltb, leb, ◌==◌, if◌then◌else◌, length, replicate, Bytes,
  Map, lookup, insert, nat_eq,
}
use nkn_sdk_rust.Prelude.Int.{ℤ, pos, to_u32, to_u64}
use nkn_sdk_rust.Floats.{F64}
use nkn_sdk_rust.Sequence.{min_sequence_id}
use nkn_sdk_rust.Connection.{Connection, NcpConfig, four_mib, millis}
use nkn_sdk_rust.Connection.Tasks.{Send}

-- protos/packet.proto
pub record Packet : Type 0 where
  pub sequence_id : ℕ
  pub contents : Bytes
  pub ack_start_seq : List ℕ
  pub ack_seq_count : List ℕ
  pub bytes_read : ℕ
  pub client_ids : List Bytes
  pub window_size : ℕ
  pub mtu : ℕ
  pub close : Bool
  pub handshake : Bool

abbrev pub default_packet : Packet
default_packet = record {
  sequence_id = 0;
  contents = [];
  ack_start_seq = [];
  ack_seq_count = [];
  bytes_read = 0;
  client_ids = [];
  window_size = 0;
  mtu = 0;
  close = false;
  handshake = false;
}

-- How a call ends: it returns, it panics, or it waits for something that no part of the call does.
pub data Run {ℓ} (A : Type ℓ) : Type ℓ where
  done : A → Run A
  panicked : Run A
  blocked : Run A

infixl 5 ◌>>=◌
abbrev pub ◌>>=◌ {ℓ κ} : {A : Type ℓ} {B : Type κ} → Run A → (A → Run B) → Run B
done a >>= f = f a
panicked >>= f = panicked
blocked >>= f = blocked

pub Run-cases {ℓ} :
    {A : Type ℓ} (r : Run A) → (r ≡ panicked) ⊎ (r ≡ blocked) ⊎ ((a : A) × (r ≡ done a))
Run-cases (done a) = inr (inr (a, refl))
Run-cases panicked = inl refl
Run-cases blocked = inr (inl refl)

-- A channel of capacity one is what it holds. `send` waits while it is full.
abbrev pub send {ℓ} : {A : Type ℓ} → Option A → A → Run (Option A)
send none a = done (some a)
send (some b) a = blocked

abbrev pub buffer_size : ℕ
buffer_size = 1024

abbrev pub zeros : Bytes
zeros = replicate buffer_size 0

-- The connections are kept under the key that `conn_key` makes.
pub record Session (F : F64) : Type 0 where
  pub config : NcpConfig
  pub local_addr : Bytes
  pub remote_addr : Bytes
  pub local_client_ids : List Bytes
  pub remote_client_ids : List Bytes
  pub send_window_size : ℕ
  pub recv_window_size : ℕ
  pub send_mtu : ℕ
  pub recv_mtu : ℕ
  pub connections : Map Bytes (Connection F)
  pub is_accepted : Bool
  pub is_established : Bool
  pub is_closed : Bool
  pub send_buffer : Bytes
  pub send_window_start_seq : ℕ
  pub send_window_end_seq : ℕ
  pub send_window_data : Map ℕ Bytes
  pub recv_window_start_seq : ℕ
  pub recv_window_used : ℕ
  pub recv_window_data : Map ℕ Bytes
  pub bytes_write : ℕ
  pub bytes_read : ℕ
  pub bytes_read_sent_time : ℕ
  pub bytes_read_update_time : ℕ
  pub remote_bytes_read : ℕ
  pub send_window_packet_count : F.Float
  pub send_chan : Option ℕ
  pub resend_chan : Option ℕ
  pub send_window_update : Option (Unit {0})
  pub recv_data_update : Option (Unit {0})
  pub on_accept : Option (Unit {0})

module _ (F : F64) where
  open F use {of_nat}

  unfoldable pub new : NcpConfig → Bytes → Bytes → List Bytes → List Bytes → ℕ → Session F
  unfolding to_u32
  new config local_addr remote_addr local_ids remote_ids now = record {
    config = config;
    local_addr = local_addr;
    remote_addr = remote_addr;
    local_client_ids = local_ids;
    remote_client_ids = remote_ids;
    send_window_size = four_mib;
    recv_window_size = four_mib;
    send_mtu = to_u32 config.mtu;
    recv_mtu = to_u32 config.mtu;
    connections = [];
    is_accepted = false;
    is_established = false;
    is_closed = false;
    send_buffer = zeros;
    send_window_start_seq = min_sequence_id;
    send_window_end_seq = min_sequence_id;
    send_window_data = [];
    recv_window_start_seq = min_sequence_id;
    recv_window_used = 0;
    recv_window_data = [];
    bytes_write = 0;
    bytes_read = 0;
    bytes_read_sent_time = now;
    bytes_read_update_time = now;
    remote_bytes_read = 0;
    send_window_packet_count = of_nat 0;
    send_chan = none;
    resend_chan = none;
    send_window_update = none;
    recv_data_update = none;
    on_accept = none;
  }

  abbrev pub is_stream : Session F → Bool
  is_stream s = not s.config.non_stream

  -- `checked_sub(..).unwrap_or(0)`, then `as u32`.
  unfoldable pub send_window_used : Session F → ℕ
  send_window_used s = (s.bytes_write - s.remote_bytes_read) % 2 ^ 32

  unfoldable pub get_data_to_send : Session F → ℕ → Run Bytes
  get_data_to_send s seq = elim (lookup seq s.send_window_data) [
    | none ↦ panicked
    | some buf ↦ done buf
  ]

  sum_windows : ℕ → Map Bytes (Connection F) → ℕ
  sum_windows acc [] = acc
  sum_windows acc ((key, conn) ∷ rest) =
      sum_windows ((acc + F.as_u32 conn.window_size) % 2 ^ 32) rest

  unfoldable pub get_conn_window_size : Session F → ℕ
  unfolding sum_windows
  get_conn_window_size s = sum_windows 0 s.connections

-- `get_seq`, on what a channel holds.
unfoldable pub get_seq : Option ℕ → Run (ℕ × Option ℕ)
get_seq none = blocked
get_seq (some seq) = done (seq, none)
