-- ===== src/Connecting/Delays.antt =====
-- How long `connect` of src/client.rs waits between its attempts.
use nkn_sdk_rust.Prelude.{ℕ, ◌*◌, ◌^◌, List, [], ◌∷◌, ◌≡◌, min}
use nkn_sdk_rust.Connecting.{Connecting, next_interval}

-- The delays from an interval on, each the next of the one before.
data AreDelays (max_interval : ℕ) : ℕ → List ℕ → Type 0 where
  no_delay : {v : ℕ} {ds : List ℕ} → ds ≡ [] → AreDelays max_interval v ds
  a_delay :
      {v : ℕ} {ds more : List ℕ}
      → ds ≡ v ∷ more
      → AreDelays max_interval (next_interval max_interval v) more
      → AreDelays max_interval v ds

-- The `k`-th delay.
abbrev pub delay : ℕ → ℕ → ℕ → ℕ
delay min_interval max_interval k = min (min_interval * 2 ^ k) max_interval
