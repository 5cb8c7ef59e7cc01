-- ===== src/Rpc/Finding.antt =====
-- A call of src/rpc.rs with a server that never fails, in whatever order the workers take their turns.
use nkn_sdk_rust.Prelude.{
  ℕ, zero, suc, ◌%◌, ◌<◌, ◌≡◌, ◌≢◌, refl, ap, ◌∙◌, ◌⊎◌, inl, inr, true, List, [], ◌∷◌, Outcome,
  panicked, Bytes, length, IsIn, here, there, All, arith,
}
use nkn_sdk_rust.Rpc.{
  RpcConfig, Worker, testing, waiting, ended, crashed, AllEnded, is_ok, workers_from, concurrency,
  Call, start_call, join_workers, Gets, Turn, first, later, Run, started, turned, RpcCall, refused,
  joined,
}
use nkn_sdk_rust.Rpc.Moves.{
  Moved, turn-Moved, no_server, has_result, asks, dies, too_late, takes, has_ended, has_crashed,
}
use nkn_sdk_rust.Rpc.Workers.{Keeps, Run-Keeps}
use nkn_sdk_rust.Rpc.Ending.{rpc_call_returns}
use nkn_sdk_rust.Rpc.Rotation.{rotate-IsIn}

nonempty : (xs : List Bytes) → xs ≢ [] → 0 < length xs
nonempty [] h = absurd (h refl)
nonempty (x ∷ xs) h = omega arith

concurrency_pos : (config : RpcConfig) → config.rpc_server_address ≢ [] → 0 < concurrency config
unfolding concurrency
concurrency_pos config h = ground (arith, nonempty config.rpc_server_address h)

-- No worker panics where no answer does.
abbrev IsWell : Worker → Type 0
IsWell (testing more) = Unit
IsWell (waiting server more) = Unit
IsWell ended = Unit
IsWell crashed = ⊥

module _ {ℓ} {D : Type ℓ} where
  join_workers_well :
      (ws : List Worker) (result : Outcome D) → All IsWell ws → join_workers ws result ≡ result
  unfolding join_workers
  join_workers_well [] result h = refl
  join_workers_well (crashed ∷ ws) result h = elim h.0 [ ]
  join_workers_well (ended ∷ ws) result h = join_workers_well ws result h.1
  join_workers_well (testing more ∷ ws) result h = join_workers_well ws result h.1
  join_workers_well (waiting s more ∷ ws) result h = join_workers_well ws result h.1

module _ {ℓ} {D : Type ℓ} (Answers : Bytes → Outcome D → Type ℓ) where
  -- Among the servers that a worker has yet to ask there is one that answers, or there is a result.
  module _ (good : Bytes) where
    abbrev WillAsk : Worker → Type 0
    WillAsk (testing more) = IsIn good more
    WillAsk (waiting server more) = (server ≡ good) ⊎ IsIn good more
    WillAsk ended = ⊥
    WillAsk crashed = ⊥

    Moved-WillAsk :
        {result answer result' : Outcome D} {w w' : Worker}
        → Moved result answer w result' w'
        → ((a : Outcome D) → Answers good a → is_ok a ≡ true)
        → ((s : Bytes) (a : Outcome D) → Answers s a → a ≢ panicked)
        → Gets Answers w answer
        → WillAsk w
        → (is_ok result' ≡ true) ⊎ WillAsk w'
    Moved-WillAsk no_server yes_ok never g h = elim h [ ]
    Moved-WillAsk (has_result yet) yes_ok never g h = inl yet
    Moved-WillAsk (asks yet) yes_ok never g (here e) = inr (inl e)
    Moved-WillAsk (asks yet) yes_ok never g (there i) = inr (inr i)
    Moved-WillAsk {answer = answer} (dies {s} e) yes_ok never g h = absurd (never s answer g e)
    Moved-WillAsk (too_late yet e) yes_ok never g h = inl yet
    Moved-WillAsk {answer = answer} (takes yet e) yes_ok never g (inl is_good) =
        inl (yes_ok answer (rw is_good at g))
    Moved-WillAsk (takes yet e) yes_ok never g (inr i) = inr i
    Moved-WillAsk has_ended yes_ok never g h = elim h [ ]
    Moved-WillAsk has_crashed yes_ok never g h = elim h [ ]

    Moved-keeps :
        {result answer result' : Outcome D} {w w' : Worker}
        → Moved result answer w result' w'
        → is_ok result ≡ true
        → is_ok result' ≡ true
    Moved-keeps no_server h = h
    Moved-keeps (has_result yet) h = h
    Moved-keeps (asks yet) h = h
    Moved-keeps (dies e) h = h
    Moved-keeps (too_late yet e) h = h
    Moved-keeps (takes yet e) h = absurd (cc)
    Moved-keeps has_ended h = h
    Moved-keeps has_crashed h = h

    Turn-keeps :
        {result result' : Outcome D} {ws ws' : List Worker}
        → Turn Answers result ws result' ws'
        → is_ok result ≡ true
        → is_ok result' ≡ true
    Turn-keeps {result} (first {worker} answer live got e) h =
        Moved-keeps (rw e at (turn-Moved result answer worker)) h
    Turn-keeps (later t) h = Turn-keeps t h

    Turn-WillAsk :
        {result result' : Outcome D} {ws ws' : List Worker}
        → Turn Answers result ws result' ws'
        → ((a : Outcome D) → Answers good a → is_ok a ≡ true)
        → ((s : Bytes) (a : Outcome D) → Answers s a → a ≢ panicked)
        → All WillAsk ws
        → (is_ok result' ≡ true) ⊎ All WillAsk ws'
    Turn-WillAsk {result} (first {worker} answer live got e) yes_ok never h =
        elim (Moved-WillAsk (rw e at (turn-Moved result answer worker)) yes_ok never got h.0) [
          | inl o ↦ inl o
          | inr w ↦ inr (w, h.1)
        ]
    Turn-WillAsk (later t) yes_ok never h = elim (Turn-WillAsk t yes_ok never h.1) [
      | inl o ↦ inl o
      | inr w ↦ inr (h.0, w)
    ]

    Run-WillAsk :
        {c d : Call D}
        → Run Answers c d
        → ((a : Outcome D) → Answers good a → is_ok a ≡ true)
        → ((s : Bytes) (a : Outcome D) → Answers s a → a ≢ panicked)
        → All WillAsk c.workers
        → (is_ok d.result ≡ true) ⊎ All WillAsk d.workers
    Run-WillAsk started yes_ok never h = inr h
    Run-WillAsk (turned r t) yes_ok never h = elim (Run-WillAsk r yes_ok never h) [
      | inl o ↦ inl (Turn-keeps t o)
      | inr w ↦ Turn-WillAsk t yes_ok never w
    ]

    workers_from-WillAsk :
        (servers : List Bytes) (n i : ℕ)
        → IsIn good servers
        → All WillAsk (workers_from n i servers)
    unfolding workers_from
    workers_from-WillAsk servers zero i h = tt
    workers_from-WillAsk servers (suc n) i h =
        (rotate-IsIn (i % length servers) servers good h, workers_from-WillAsk servers n (suc i) h)

  IsWell-Keeps :
      ((s : Bytes) (a : Outcome D) → Answers s a → a ≢ panicked)
      → Keeps Answers IsWell (λ result. Unit {ℓ})
  IsWell-Keeps never result answer result' w w' no_server g h q = (tt, tt)
  IsWell-Keeps never result answer result' w w' (has_result yet) g h q = (tt, tt)
  IsWell-Keeps never result answer result' w w' (asks yet) g h q = (tt, tt)
  IsWell-Keeps never result answer result' w w' (dies {s} e) g h q = absurd (never s answer g e)
  IsWell-Keeps never result answer result' w w' (too_late yet e) g h q = (tt, tt)
  IsWell-Keeps never result answer result' w w' (takes yet e) g h q = (tt, tt)
  IsWell-Keeps never result answer result' w w' has_ended g h q = (tt, tt)
  IsWell-Keeps never result answer result' w w' has_crashed g h q = elim h [ ]

  workers_from-IsWell : (servers : List Bytes) (n i : ℕ) → All IsWell (workers_from n i servers)
  unfolding workers_from
  workers_from-IsWell servers zero i = tt
  workers_from-IsWell servers (suc n) i = (tt, workers_from-IsWell servers n (suc i))

  everyone :
      (ws : List Worker) (good : Bytes) → 0 < length ws → AllEnded ws → All (WillAsk good) ws → ⊥
  everyone [] good h all ask = absurd (omega arith)
  everyone (testing more ∷ ws) good h all ask = all.0
  everyone (waiting s more ∷ ws) good h all ask = all.0
  everyone (ended ∷ ws) good h all ask = ask.0
  everyone (crashed ∷ ws) good h all ask = ask.0

  length-Turn :
      {result result' : Outcome D} {ws ws' : List Worker}
      → Turn Answers result ws result' ws'
      → length ws' ≡ length ws
  length-Turn (first answer live got e) = refl
  length-Turn (later t) = ap suc (length-Turn t)

  length-Run : {c d : Call D} → Run Answers c d → length d.workers ≡ length c.workers
  length-Run started = refl
  length-Run (turned r t) = length-Turn t ∙ length-Run r

  length-workers_from : (servers : List Bytes) (n i : ℕ) → length (workers_from n i servers) ≡ n
  unfolding workers_from
  length-workers_from servers zero i = refl
  length-workers_from servers (suc n) i = ap suc (length-workers_from servers n (suc i))

  -- Where a call ends, it has a value.
  outcome_is_ok :
      (config : RpcConfig) (good : Bytes) {outcome : Outcome D}
      → IsIn good config.rpc_server_address
      → ((a : Outcome D) → Answers good a → is_ok a ≡ true)
      → ((s : Bytes) (a : Outcome D) → Answers s a → a ≢ panicked)
      → RpcCall Answers config outcome
      → is_ok outcome ≡ true
  unfolding start_call
  outcome_is_ok config good there_is yes_ok never (refused e) = elim (rw e at there_is) [ ]
  outcome_is_ok config good there_is yes_ok never (joined {end} some_server run all e) =
      let servers = config.rpc_server_address in
      let n = concurrency config in
      let (well, u) =
        Run-Keeps Answers IsWell (λ result. Unit {ℓ}) (IsWell-Keeps never) run
          (workers_from-IsWell servers n 0) tt in
      let joined_result = e ∙ join_workers_well end.workers end.result well in
      elim (Run-WillAsk good run yes_ok never (workers_from-WillAsk good servers n 0 there_is)) [
        | inl o ↦ rw joined_result o
        | inr ask ↦ absurd (
            everyone end.workers good
              (rw (length-Run run)
                (rw (length-workers_from servers n 0) (concurrency_pos config some_server)))
              all ask)
      ]

  -- If every server answers every request, one of the servers of a call never with an error, and none so
  -- that a worker panics, then `rpc_call` can come to a result, and in whatever order its workers take
  -- their turns, its result is a value.
  pub rpc_call_finds :
      (config : RpcConfig) (good : Bytes)
      → IsIn good config.rpc_server_address
      → ((s : Bytes) → (a : Outcome D) × Answers s a)
      → ((a : Outcome D) → Answers good a → is_ok a ≡ true)
      → ((s : Bytes) (a : Outcome D) → Answers s a → a ≢ panicked)
      → ((outcome : Outcome D) × RpcCall Answers config outcome)
        × ((outcome : Outcome D) → RpcCall Answers config outcome → is_ok outcome ≡ true)
  rpc_call_finds config good there_is answer yes_ok never = (
    rpc_call_returns Answers config answer,
    λ outcome call. outcome_is_ok config good there_is yes_ok never call,
  )
