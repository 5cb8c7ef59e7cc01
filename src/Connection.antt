-- ===== src/Connection.antt =====
-- src/connection.rs, `Connection` and its methods, and `NcpConfig` of src/session.rs. Times are
-- nanoseconds, and the clock's reading is an argument.
pub mod Acks
pub mod Tasks
pub mod AckQueue
pub mod AckRuns
pub mod Timeouts
mod Runs
use nkn_sdk_rust.Prelude.{
  ℕ, suc, ◌+◌, ◌-◌, ◌*◌, ◌^◌, ◌/◌, ◌%◌, Bool, true, false, Option, none, some, List, [], ◌∷◌,
  Outcome, ok, err, panicked, ◌>>=◌, ltb, leb, if◌then◌else◌, length, Bytes, Map, lookup, insert,
  remove, contains_key, nat_eq, unwrap,
}
use nkn_sdk_rust.Prelude.Int.{ℤ, pos}
use nkn_sdk_rust.Floats.{F64}

pub record NcpConfig : Type 0 where
  pub non_stream : Bool
  pub session_window_size : ℤ
  pub mtu : ℤ
  pub min_connection_window_size : ℤ
  pub max_ask_seq_list_size : ℕ
  pub flush_interval : ℤ
  pub linger : ℤ
  pub initial_retransmission_timeout : ℕ
  pub max_retransmission_timeout : ℕ
  pub send_ack_interval : ℕ
  pub check_timeout_interval : ℕ
  pub send_bytes_read_threshold : ℤ

-- `4 << 20`
abbrev pub four_mib : ℕ
four_mib = 4 * 2 ^ 20

abbrev pub default_ncp_config : NcpConfig
default_ncp_config = record {
  non_stream = true;
  session_window_size = pos four_mib;
  mtu = pos 1024;
  min_connection_window_size = pos 1;
  max_ask_seq_list_size = 32;
  flush_interval = pos 10;
  linger = pos 1000;
  initial_retransmission_timeout = 5000;
  max_retransmission_timeout = 10000;
  send_ack_interval = 50;
  check_timeout_interval = 100;
  send_bytes_read_threshold = pos 200;
}

abbrev pub millis : ℕ → ℕ
millis n = n * 1_000_000

-- `send_window_update` tells whether the channel of capacity one holds a token.
pub record Connection (F : F64) : Type 0 where
  pub local_client_id : Bytes
  pub remote_client_id : Bytes
  pub config : NcpConfig
  pub window_size : F.Float
  pub send_window_update : Bool
  pub time_sent_seq : Map ℕ ℕ
  pub resent_seq : Map ℕ (Unit {0})
  pub send_ack_queue : List ℕ
  pub retransmission_timeout : ℕ

-- What ends one wait of `wait_for_send_window`: a token, with the packets in flight by then, or the
-- timeout of a second.
pub data WaitEvent : Type 0 where
  updated : ℕ → WaitEvent
  timed_out : WaitEvent

pub data WaitResult : Type 0 where
  ready failed waiting : WaitResult

module _ (F : F64) where
  open F use {Float, of_nat, add, mul, div, tanh, lt, as_u32, as_u64}

  abbrev pub one : Float
  one = of_nat 1

  pub new_connection : Bytes → Bytes → Float → Connection F
  new_connection local remote size = record {
    local_client_id = local;
    remote_client_id = remote;
    config = default_ncp_config;
    window_size = size;
    send_window_update = false;
    time_sent_seq = [];
    resent_seq = [];
    send_ack_queue = [];
    retransmission_timeout = millis 5000;
  }

  pub send_window_used : Connection F → ℕ
  send_window_used c = length c.time_sent_seq % 2 ^ 32

  pub send_ack : Connection F → ℕ → Connection F
  send_ack c seq = record c { send_ack_queue = seq ∷ c.send_ack_queue }

  unfoldable pub set_window_size : Connection F → Float → Float → Connection F
  set_window_size c n least = record c { window_size = if lt n least then least else n }

  -- `used` is what `send_window_used` returns before the wait.
  pub wait_for_send_window : Connection F → ℕ → List WaitEvent → WaitResult
  wait_for_send_window c used [] = if leb (as_u32 c.window_size) used then waiting else ready
  wait_for_send_window c used (updated used' ∷ events) =
      let rest = wait_for_send_window c used' events in
      if leb (as_u32 c.window_size) used then rest else ready
  wait_for_send_window c used (timed_out ∷ events) =
      if leb (as_u32 c.window_size) used then failed else ready

  -- `3 * rtt - timeout` panics below zero.
  abbrev rtt_excess : ℕ → ℕ → Outcome ℕ
  rtt_excess rtt timeout = if ltb (3 * rtt) timeout then panicked else ok (3 * rtt - timeout)

  -- The new timeout, `Duration::from_nanos(d.tanh() as u64)` under the configured maximum.
  abbrev next_timeout : NcpConfig → ℕ → ℕ
  next_timeout config excess =
      let d = mul (div (of_nat excess) (of_nat (millis 1000))) (of_nat (millis 100)) in
      let ns = as_u64 (tanh d) in
      if ltb config.max_retransmission_timeout (ns / 1_000_000)
      then millis config.max_retransmission_timeout
      else ns

  abbrev sample_rtt : Connection F → ℕ → ℕ → Outcome (Connection F)
  sample_rtt c sent now = if ltb now sent then panicked else do
    excess ← rtt_excess (now - sent) c.retransmission_timeout
    ok (record c { retransmission_timeout = next_timeout c.config excess })

  -- The last step fails its `expect` where the channel still holds a token.
  abbrev forget_seq : Connection F → ℕ → Outcome (Connection F)
  forget_seq c seq =
      if c.send_window_update
      then panicked
      else ok (record c {
        time_sent_seq = remove seq c.time_sent_seq;
        resent_seq = remove seq c.resent_seq;
        send_window_update = true;
      })

  pub receive_ack : Connection F → ℕ → Bool → ℕ → Outcome (Connection F)
  receive_ack c seq is_sent_by_me now = elim (lookup seq c.time_sent_seq) [
    | none ↦ ok c
    | some sent ↦ do c' ← if is_sent_by_me then sample_rtt c sent now else ok c; forget_seq c' seq
  ]
