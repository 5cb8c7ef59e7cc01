-- ===== src/Connecting/Retries.antt =====
-- How `connect` of src/client.rs ends.
use nkn_sdk_rust.Prelude.{
  ℕ, zero, suc, ◌+◌, ◌%◌, ◌^◌, ◌==◌, ltb, if◌then◌else◌, Bool, true, false, ◌||◌, List, [], ◌∷◌,
  ◌≤◌, ◌<◌, ◌≡◌, ◌≢◌, refl, sym, ap, ◌∙◌, length, All, arith,
}
use nkn_sdk_rust.Connecting.{
  ClientConfig, Attempt, connects, fails, panics, Ending, connected, connect_failed, crashed,
  Connecting, pause, on_attempt, interval_after, connect_from, connect, Request, goes_on,
  handle_reconnect,
}

abbrev pub decided_by : Attempt → Ending → Ending
decided_by connects more = connected
decided_by panics more = crashed
decided_by fails more = more

-- The first attempt of `n` from the `i`-th on that does not fail, if there is one, decides.
abbrev pub decided : (ℕ → Attempt) → ℕ → ℕ → Ending
decided attempts zero i = connect_failed
decided attempts (suc n) i = decided_by (attempts i) (decided attempts n (suc i))

pause-ending : (retry interval : ℕ) (c : Connecting) → (pause retry interval c).ending ≡ c.ending
pause-ending retry interval c = ground arith

on_attempt-ending : (a : Attempt) (c : Connecting) → (on_attempt a c).ending ≡ decided_by a c.ending
on_attempt-ending connects c = refl
on_attempt-ending panics c = refl
on_attempt-ending fails c = refl

-- One for the first attempt, which has no pause.
abbrev unpaused : ℕ → ℕ
unpaused zero = 1
unpaused (suc retry) = 0

pause-length :
    (retry interval : ℕ) (c : Connecting)
    → length (pause retry interval c).slept + unpaused retry ≤ length c.slept + 1
pause-length zero interval c = ground arith
pause-length (suc retry) interval c = ground arith

on_attempt-length : (a : Attempt) (c : Connecting) → length (on_attempt a c).slept ≤ length c.slept
on_attempt-length connects c = omega arith
on_attempt-length panics c = omega arith
on_attempt-length fails c = omega arith

unpaused_few : (retry : ℕ) → 0 < retry → unpaused retry ≡ 0
unpaused_few zero h = absurd (omega (arith, h))
unpaused_few (suc retry) h = refl

module _ (max_retries max_interval : ℕ) (attempts : ℕ → Attempt) where
  go_on : (retry : ℕ) → retry < max_retries → ((max_retries == 0) || ltb retry max_retries) ≡ true
  go_on retry more = ground arith

  stop :
      (retry : ℕ)
      → 0 < max_retries
      → retry ≡ max_retries
      → ((max_retries == 0) || ltb retry max_retries) ≡ false
  stop retry some_retry no_more = ground arith

  connect_from-decided :
      (n fuel i retry interval : ℕ)
      → 0 < max_retries
      → max_retries < 2 ^ 32
      → retry + n ≡ max_retries
      → n < fuel
      → ((connect_from max_retries max_interval attempts fuel i retry interval).ending
          ≡ decided attempts n i)
        × (length (connect_from max_retries max_interval attempts fuel i retry interval).slept
              + unpaused retry
            ≤ n)
  unfolding connect_from
  connect_from-decided n zero i retry interval some_retry fits left enough =
      absurd (omega (arith, enough))
  connect_from-decided zero (suc fuel) i retry interval some_retry fits left enough =
      rw (stop retry some_retry (omega (arith, left)))
        (refl, omega (arith, unpaused_few retry (omega (arith, left, some_retry))))
  connect_from-decided (suc n) (suc fuel) i retry interval some_retry fits left enough =
      let wrapped : (retry + 1) % 2 ^ 32 ≡ suc retry = omega (arith, left, fits) in
      let next = interval_after max_interval retry interval in
      let more =
        connect_from max_retries max_interval attempts fuel (suc i) ((retry + 1) % 2 ^ 32) next in
      let (same, few) =
        connect_from-decided n fuel (suc i) ((retry + 1) % 2 ^ 32) next some_retry fits
          (omega (arith, wrapped, left)) (omega (arith, enough)) in
      rw (go_on retry (omega (arith, left))) (
        pause-ending retry interval (on_attempt (attempts i) more)
            ∙ on_attempt-ending (attempts i) more
            ∙ ap (decided_by (attempts i)) same,
        omega (
          arith,
          pause-length retry interval (on_attempt (attempts i) more),
          on_attempt-length (attempts i) more,
          few,
        ),
      )

-- With a bound on its attempts, `connect` ends after at most that many: as the first attempt that
-- does not fail, or with an error where all fail, and there are fewer pauses than attempts. One unit of
-- fuel more than the bound is enough.
pub connect-decided :
    (max_retries fuel : ℕ) (config : ClientConfig) (attempts : ℕ → Attempt)
    → 0 < max_retries
    → max_retries < 2 ^ 32
    → max_retries < fuel
    → ((connect max_retries config attempts fuel).ending ≡ decided attempts max_retries 0)
      × (length (connect max_retries config attempts fuel).slept < max_retries)
unfolding connect
connect-decided max_retries fuel config attempts some_retry fits enough =
    let (same, few) =
      connect_from-decided max_retries config.max_reconnect_interval attempts max_retries fuel 0 0
        config.min_reconnect_interval some_retry fits (omega arith) enough in
    (same, omega (arith, few))

-- Without a bound.
connect_from-connected :
    (max_interval : ℕ) (attempts : ℕ → Attempt) (n fuel i retry interval : ℕ)
    → ((j : ℕ) → j < n → attempts (i + j) ≡ fails)
    → attempts (i + n) ≡ connects
    → n < fuel
    → (connect_from 0 max_interval attempts fuel i retry interval).ending ≡ connected
unfolding connect_from
connect_from-connected max_interval attempts n zero i retry interval failing good enough =
    absurd (omega (arith, enough))
connect_from-connected max_interval attempts zero (suc fuel) i retry interval failing good enough =
    let more =
      connect_from 0 max_interval attempts fuel (suc i) ((retry + 1) % 2 ^ 32)
        (interval_after max_interval retry interval) in
    let now : attempts i ≡ connects = ap attempts (omega arith) ∙ good in
    pause-ending retry interval (on_attempt (attempts i) more)
    ∙ on_attempt-ending (attempts i) more
    ∙ ap (λ a. decided_by a more.ending) now
connect_from-connected max_interval attempts (suc n) (suc fuel) i retry interval failing good
      enough =
    let more =
      connect_from 0 max_interval attempts fuel (suc i) ((retry + 1) % 2 ^ 32)
        (interval_after max_interval retry interval) in
    let now : attempts i ≡ fails = ap attempts (omega arith) ∙ failing 0 (omega arith) in
    pause-ending retry interval (on_attempt (attempts i) more)
    ∙ on_attempt-ending (attempts i) more
    ∙ ap (λ a. decided_by a more.ending) now
    ∙ connect_from-connected max_interval attempts n fuel (suc i) ((retry + 1) % 2 ^ 32)
        (interval_after max_interval retry interval)
        (λ j h. ap attempts (omega arith) ∙ failing (suc j) (omega (arith, h)))
        (ap attempts (omega arith) ∙ good) (omega (arith, enough))

-- Without a bound on its attempts, which is how the client connects and reconnects, `connect` keeps
-- trying: if the `n`-th attempt connects and those before it fail, it ends connected, whatever `n` is,
-- and its counter may have wrapped around. More fuel than `n` is enough.
pub connect_keeps_trying :
    (n fuel : ℕ) (config : ClientConfig) (attempts : ℕ → Attempt)
    → ((j : ℕ) → j < n → attempts j ≡ fails)
    → attempts n ≡ connects
    → n < fuel
    → (connect 0 config attempts fuel).ending ≡ connected
unfolding connect
connect_keeps_trying n fuel config attempts failing good enough =
    connect_from-connected config.max_reconnect_interval attempts n fuel 0 0
      config.min_reconnect_interval (λ j h. ap attempts (omega arith) ∙ failing j h)
      (ap attempts (omega arith) ∙ good) enough

decided_by_no_failure :
    (a : Attempt) (more : Ending) → more ≢ connect_failed → decided_by a more ≢ connect_failed
decided_by_no_failure connects more h e = absurd (cc)
decided_by_no_failure panics more h e = absurd (cc)
decided_by_no_failure fails more h e = h e

connect_from_no_failure :
    (max_interval : ℕ) (attempts : ℕ → Attempt) (fuel i retry interval : ℕ)
    → (connect_from 0 max_interval attempts fuel i retry interval).ending ≢ connect_failed
unfolding connect_from
connect_from_no_failure max_interval attempts zero i retry interval e = absurd (cc)
connect_from_no_failure max_interval attempts (suc fuel) i retry interval e =
    let next = interval_after max_interval retry interval in
    let more = connect_from 0 max_interval attempts fuel (suc i) ((retry + 1) % 2 ^ 32) next in
    decided_by_no_failure (attempts i) more.ending
      (connect_from_no_failure max_interval attempts fuel (suc i) ((retry + 1) % 2 ^ 32) next)
      (sym (
          pause-ending retry interval (on_attempt (attempts i) more)
          ∙ on_attempt-ending (attempts i) more)
        ∙ e)

-- A reconnection: its pause, and how it did not end.
abbrev pub IsServed : ClientConfig → ℕ × Connecting → Type 0
IsServed config (interval, c) =
    (interval ≡ config.min_reconnect_interval) × (c.ending ≢ connect_failed)

if-IsServed :
    (config : ClientConfig) (b : Bool) (xs ys : List (ℕ × Connecting))
    → All (IsServed config) xs
    → All (IsServed config) ys
    → All (IsServed config) (if b then xs else ys)
if-IsServed config true xs ys h k = h
if-IsServed config false xs ys h k = k

-- However its attempts go, no reconnection of `handle_reconnect` gives up with "connect failed": each waits
-- for the least interval and then either connects, goes on trying or dies of a panic.
handle_reconnect-IsServed :
    (config : ClientConfig) (requests : List Request)
    → All (IsServed config) (handle_reconnect config requests)
unfolding handle_reconnect connect
handle_reconnect-IsServed config [] = tt
handle_reconnect-IsServed config (request ∷ requests) =
    let c = connect 0 config request.attempts request.fuel in
    let served =
      connect_from_no_failure config.max_reconnect_interval request.attempts request.fuel 0 0
        config.min_reconnect_interval in
    if-IsServed config request.closed _ _ tt (
      (refl, served),
      if-IsServed config (goes_on c.ending) _ _ (handle_reconnect-IsServed config requests) tt,
    )
