-- ===== src/Connecting/Runs.antt =====
-- `connect` of src/client.rs with attempts that fail three times.
use nkn_sdk_rust.Prelude.{none, ℕ, zero, suc, ◌<◌, ◌≡◌, refl, [], ◌∷◌, length, arith}
use nkn_sdk_rust.Connecting.{
  ClientConfig, Attempt, connects, fails, connected, connect, connect_from,
}
use nkn_sdk_rust.Connecting.Retries.{decided, connect-decided, connect_keeps_trying}

-- The defaults.
abbrev default_config : ClientConfig
default_config = record {
  rpc_server_address = [];
  rpc_timeout = 10;
  rpc_concurrency = 1;
  msg_chan_length = 1024;
  connect_retries = 3;
  msg_cache_expiration = 300000;
  msg_cache_cleanup_interval = 60000;
  ws_handshake_timeout = 5000;
  ws_write_timeout = 10000;
  min_reconnect_interval = 1000;
  max_reconnect_interval = 64000;
  message_config = none;
}

abbrev flaky : ℕ → Attempt
flaky zero = fails
flaky (suc zero) = fails
flaky (suc (suc zero)) = fails
flaky (suc (suc (suc i))) = connects

fails_first : (j : ℕ) → j < 3 → flaky j ≡ fails
fails_first zero h = refl
fails_first (suc zero) h = refl
fails_first (suc (suc zero)) h = refl
fails_first (suc (suc (suc j))) h = absurd (omega (arith, h))

pauses : (connect 0 default_config flaky 5).slept ≡ 1000 ∷ 2000 ∷ 4000 ∷ []
unfolding connect connect_from
pauses = refl

connect-decided_example :
    ((connect 5 default_config flaky 6).ending ≡ decided flaky 5 0)
    × (length (connect 5 default_config flaky 6).slept < 5)
connect-decided_example =
    connect-decided 5 6 default_config flaky (ground arith) (ground arith) (ground arith)

connect_keeps_trying_example : (connect 0 default_config flaky 5).ending ≡ connected
connect_keeps_trying_example =
    connect_keeps_trying 3 5 default_config flaky fails_first refl (ground arith)
