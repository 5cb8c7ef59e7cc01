-- ===== src/Rpc/Ending.antt =====
-- The calls of src/rpc.rs end, whoever takes the turns.
use nkn_sdk_rust.Prelude.{
  ℕ, zero, suc, ◌+◌, ◌*◌, ◌%◌, ◌≤◌, ◌<◌, ◌≡◌, ◌≢◌, refl, ◌⊎◌, inl, inr, List, [], ◌∷◌, Outcome, ok,
  err, panicked, Bytes, length, arith,
}
use nkn_sdk_rust.Rpc.{
  RpcConfig, Worker, testing, waiting, ended, crashed, IsLive, AllEnded, turn, workers_from,
  concurrency, Call, start_call, Turn, first, later, Run, started, turned, RpcCall, refused, joined,
  join_workers,
}
use native.Mathlib.Nat.{suc-mul}
use nkn_sdk_rust.Rpc.Rotation.{length-rotate}

one_more : (n m : ℕ) → m + n * m ≡ suc n * m
one_more n m = omega (arith, suc-mul n m)

-- How many turns a worker has left, at most.
abbrev turns_left : Worker → ℕ
turns_left (testing more) = 2 * length more + 1
turns_left (waiting s more) = 2 * length more + 2
turns_left ended = 0
turns_left crashed = 0

abbrev all_turns_left : List Worker → ℕ
all_turns_left [] = 0
all_turns_left (w ∷ ws) = turns_left w + all_turns_left ws

none_or_some : (xs : List Bytes) → (xs ≡ []) ⊎ (xs ≢ [])
none_or_some [] = inl refl
none_or_some (x ∷ xs) = inr (λ e. absurd (cc))

module _ {ℓ} {D : Type ℓ} (Answers : Bytes → Outcome D → Type ℓ) where
  turn_less :
      (result answer : Outcome D) (w : Worker)
      → IsLive w
      → turns_left (turn result answer w).1 < turns_left w
  unfolding turn
  turn_less result answer (testing []) h = omega arith
  turn_less (ok v) answer (testing (s ∷ more)) h = omega arith
  turn_less (err e) answer (testing (s ∷ more)) h = omega arith
  turn_less panicked answer (testing (s ∷ more)) h = omega arith
  turn_less result (ok v) (waiting s more) h = omega arith
  turn_less result (err e) (waiting s more) h = omega arith
  turn_less result panicked (waiting s more) h = omega arith
  turn_less result answer ended h = elim h [ ]
  turn_less result answer crashed h = elim h [ ]

  Turn-less :
      {result result' : Outcome D} {ws ws' : List Worker}
      → Turn Answers result ws result' ws'
      → all_turns_left ws' < all_turns_left ws
  Turn-less {result} (first {worker} answer live got e) =
      let less = rw e at (turn_less result answer worker live) in omega (arith, less)
  Turn-less (later t) = omega (arith, Turn-less t)

  -- The number of turns of a run.
  abbrev pub turns_taken : {c d : Call D} → Run Answers c d → ℕ
  turns_taken started = 0
  turns_taken (turned r t) = turns_taken r + 1

  Run_bounded :
      {c d : Call D} (r : Run Answers c d)
      → turns_taken r + all_turns_left d.workers ≤ all_turns_left c.workers
  Run_bounded started = omega arith
  Run_bounded (turned r t) = omega (arith, Run_bounded r, Turn-less t)

  workers_from_turns :
      (servers : List Bytes) (n i : ℕ)
      → all_turns_left (workers_from n i servers) ≡ n * (2 * length servers + 1)
  unfolding workers_from
  workers_from_turns servers zero i = omega arith
  workers_from_turns servers (suc n) i =
      rw (length-rotate (i % length servers) servers)
        (rw (workers_from_turns servers n (suc i)) (one_more n (2 * length servers + 1)))

  -- Whoever has not ended can take a turn.
  next-Turn :
      (result : Outcome D) (ws : List Worker)
      → ((s : Bytes) → (a : Outcome D) × Answers s a)
      → AllEnded ws
        ⊎ ((result' : Outcome D) × (ws' : List Worker) × Turn Answers result ws result' ws')
  next-Turn result [] answer = inl tt
  next-Turn result (testing more ∷ ws) answer = inr (_, _, first (err "") tt tt refl)
  next-Turn result (waiting s more ∷ ws) answer =
      let (a, h) = answer s in inr (_, _, first a tt h refl)
  next-Turn result (ended ∷ ws) answer = elim (next-Turn result ws answer) [
    | inl all ↦ inl (tt, all)
    | inr (r, ws', t) ↦ inr (r, ended ∷ ws', later t)
  ]
  next-Turn result (crashed ∷ ws) answer = elim (next-Turn result ws answer) [
    | inl all ↦ inl (tt, all)
    | inr (r, ws', t) ↦ inr (r, crashed ∷ ws', later t)
  ]

  -- Whatever was done so far, all workers can come to their end.
  run_out :
      (n : ℕ) (c d : Call D)
      → ((s : Bytes) → (a : Outcome D) × Answers s a)
      → Run Answers c d
      → all_turns_left d.workers ≤ n
      → (end : Call D) × Run Answers c end × AllEnded end.workers
  run_out zero c d answer r left = elim (next-Turn d.result d.workers answer) [
    | inl all ↦ (d, r, all)
    | inr (result', ws', t) ↦ absurd (omega (arith, Turn-less t))
  ]
  run_out (suc n) c d answer r left = elim (next-Turn d.result d.workers answer) [
    | inl all ↦ (d, r, all)
    | inr (result', ws', t) ↦
        let e : Call D = record { result = result'; workers = ws' } in
        run_out n c e answer (turned {e = e} r t) (omega (arith, Turn-less t))
  ]

  -- Where every server answers every request, `rpc_call` has a result.
  pub rpc_call_returns :
      (config : RpcConfig)
      → ((s : Bytes) → (a : Outcome D) × Answers s a)
      → (outcome : Outcome D) × RpcCall Answers config outcome
  rpc_call_returns config answer = elim (none_or_some config.rpc_server_address) [
    | inl empty ↦ (err "No server addresses in config", refused empty)
    | inr some_server ↦
        let start : Call D = start_call config in
        let (end, r, all) =
          run_out (all_turns_left start.workers) start start answer started (omega arith) in
        (join_workers end.workers end.result, joined {end = end} some_server r all refl)
  ]

  -- If every server answers every request: however the workers of a call take their turns, there are at
  -- most two turns for each server and worker and one more for each worker; until all have ended, one of
  -- them can take a turn, and from whatever was done so far, turns lead to where all have ended.
  pub rpc_call_ends :
      (config : RpcConfig)
      → ((s : Bytes) → (a : Outcome D) × Answers s a)
      → {d : Call D} (r : Run Answers (start_call config) d)
      → (turns_taken r ≤ concurrency config * (2 * length config.rpc_server_address + 1))
        × (AllEnded d.workers
            ⊎ ((result' : Outcome D) × (ws' : List Worker) × Turn Answers d.result d.workers result'
                  ws'))
        × ((end : Call D) × Run Answers d end × AllEnded end.workers)
  unfolding start_call
  rpc_call_ends config answer {d} r = (
    omega
        (arith, Run_bounded r, workers_from_turns config.rpc_server_address (concurrency config) 0),
    next-Turn d.result d.workers answer,
    run_out (all_turns_left d.workers) d d answer started (omega arith),
  )
