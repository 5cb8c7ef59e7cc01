-- ===== src/Connecting.antt =====
-- Connecting and reconnecting of src/client.rs: the loop of `connect`, and `handle_reconnect`, which
-- calls it. What an attempt gives, from `get_ws_address` to `connect_to_node`, is a parameter: whom the
-- RPC servers name and whether its socket opens is not the client's to say.
pub mod Retries
pub mod Delays
mod Runs
use nkn_sdk_rust.Prelude.{
  ℕ, zero, suc, ◌+◌, ◌*◌, ◌%◌, ◌^◌, ◌==◌, ltb, if◌then◌else◌, Bool, true, false, ◌||◌, List, [],
  ◌∷◌, ◌++◌, min, ◌≤◌, ◌<◌, ◌≡◌, Bytes, Option,
}
use nkn_sdk_rust.Inbound.Asking.{MessageConfig}

-- `ClientConfig`
pub record ClientConfig : Type 0 where
  pub rpc_server_address : List Bytes
  pub rpc_timeout : ℕ
  pub rpc_concurrency : ℕ
  pub msg_chan_length : ℕ
  pub connect_retries : ℕ
  pub msg_cache_expiration : ℕ
  pub msg_cache_cleanup_interval : ℕ
  pub ws_handshake_timeout : ℕ
  pub ws_write_timeout : ℕ
  pub min_reconnect_interval : ℕ
  pub max_reconnect_interval : ℕ
  pub message_config : Option MessageConfig

-- How an attempt ends: connected, with an error that is logged, or in a panic.
pub data Attempt : Type 0 where
  connects : Attempt
  fails : Attempt
  panics : Attempt

-- How the loop ends. `running` is a loop that has used up its fuel.
pub data Ending : Type 0 where
  connected : Ending
  connect_failed : Ending
  crashed : Ending
  running : Ending

-- The pauses that were made, in milliseconds, and the ending.
pub record Connecting : Type 0 where
  pub slept : List ℕ
  pub ending : Ending

abbrev pub sleeping : ℕ → Connecting → Connecting
sleeping interval c = record c { slept = interval ∷ c.slept }

-- `retry_interval *= 2`, and its bound.
abbrev pub next_interval : ℕ → ℕ → ℕ
next_interval max_interval interval =
    let doubled = (interval * 2) % 2 ^ 64 in
    if ltb max_interval doubled then max_interval else doubled

-- The pause before all attempts but the first.
abbrev pub pause : ℕ → ℕ → Connecting → Connecting
pause retry interval c = if ltb 0 retry then sleeping interval c else c

abbrev pub interval_after : ℕ → ℕ → ℕ → ℕ
interval_after max_interval retry interval =
    if ltb 0 retry then next_interval max_interval interval else interval

-- What comes of an attempt.
abbrev pub on_attempt : Attempt → Connecting → Connecting
on_attempt connects more = record { slept = []; ending = connected }
on_attempt panics more = record { slept = []; ending = crashed }
on_attempt fails more = more

-- The loop from the `i`-th attempt on. `retry` is a 32-bit word, which wraps around.
module _ (max_retries : ℕ) (max_interval : ℕ) (attempts : ℕ → Attempt) where
  unfoldable pub connect_from : ℕ → ℕ → ℕ → ℕ → Connecting
  connect_from zero i retry interval = record { slept = []; ending = running }
  connect_from (suc fuel) i retry interval =
      let more =
        connect_from fuel (suc i) ((retry + 1) % 2 ^ 32)
          (interval_after max_interval retry interval) in
      if (max_retries == 0) || ltb retry max_retries
      then pause retry interval (on_attempt (attempts i) more)
      else (record { slept = []; ending = connect_failed })

unfoldable pub connect : ℕ → ClientConfig → (ℕ → Attempt) → ℕ → Connecting
unfolding connect_from
connect max_retries config attempts fuel =
    connect_from max_retries config.max_reconnect_interval attempts fuel 0 0
      config.min_reconnect_interval

-- A request to reconnect: whether the client is closed when it is taken, and the attempts then.
pub record Request : Type 0 where
  pub closed : Bool
  pub attempts : ℕ → Attempt
  pub fuel : ℕ

-- The task goes on where `connect` has returned.
abbrev pub goes_on : Ending → Bool
goes_on connected = true
goes_on connect_failed = true
goes_on crashed = false
goes_on running = false

-- The pause before each call of `connect`, and the call.
unfoldable pub handle_reconnect : ClientConfig → List Request → List (ℕ × Connecting)
unfolding connect
handle_reconnect config [] = []
handle_reconnect config (request ∷ requests) =
    let c = connect 0 config request.attempts request.fuel in
    let rest = handle_reconnect config requests in
    if request.closed
    then []
    else (config.min_reconnect_interval, c) ∷ (if goes_on c.ending then rest else [])
