-- ===== src/Rpc/Sequential.antt =====
-- A call of src/rpc.rs with one worker, which is the default, asks the servers one by one.
use nkn_sdk_rust.Prelude.{
  ℕ, String, zero, suc, ◌≡◌, ◌≢◌, refl, sym, ◌∙◌, ◌⊎◌, inl, inr, true, false, List, [], ◌∷◌,
  append-nil, Outcome, ok, err, panicked, Bytes, length, All, arith,
}
use native.Mathlib.Nat.{zero-mod}
use nkn_sdk_rust.Rpc.{
  RpcConfig, Worker, testing, waiting, ended, crashed, AllEnded, is_ok, rotate, workers_from,
  concurrency, Gets, Call, start_call, join_workers, Turn, first, later, Run, started, turned,
  RpcCall, refused, joined,
}
use nkn_sdk_rust.Rpc.Moves.{
  Moved, turn-Moved, no_server, has_result, asks, dies, too_late, takes, has_ended, has_crashed,
}

-- What asking in turn gives: the first value, else the last error. `result` is what there is so far.
module _ {ℓ} {D : Type ℓ} (answer : Bytes → Outcome D) where
  abbrev pub first_answer : Outcome D → List Bytes → Outcome D
  first_answer result [] = result
  first_answer result (s ∷ more) = elim (answer s) [
    | ok value ↦ ok value
    | panicked ↦ panicked
    | err message ↦ first_answer (err message) more
  ]

  -- The answers of servers that answer alike each time.
  abbrev pub Constant : Bytes → Outcome D → Type ℓ
  Constant s a = answer s ≡ a

  -- What the worker and the result will come to.
  abbrev Comes : Outcome D → Outcome D → Worker → Type ℓ
  Comes to result (testing more) =
      (result ≡ to) × (is_ok result ≡ true)
      ⊎ ((is_ok result ≡ false) × (first_answer result more ≡ to))
  Comes to result (waiting s more) = (is_ok result ≡ false) × (first_answer result (s ∷ more) ≡ to)
  Comes to result ended = result ≡ to
  Comes to result crashed = to ≡ panicked

  first_answer-ok :
      (result : Outcome D) (s : Bytes) (more : List Bytes) {v : D}
      → answer s ≡ ok v
      → first_answer result (s ∷ more) ≡ ok v
  first_answer-ok result s more e = rw (first_answer, e) refl

  first_answer-err :
      (result : Outcome D) (s : Bytes) (more : List Bytes) {m : String}
      → answer s ≡ err m
      → first_answer result (s ∷ more) ≡ first_answer (err m) more
  first_answer-err result s more e = rw (first_answer, e) refl

  first_answer-panicked :
      (result : Outcome D) (s : Bytes) (more : List Bytes)
      → answer s ≡ panicked
      → first_answer result (s ∷ more) ≡ panicked
  first_answer-panicked result s more e = rw (first_answer, e) refl

  taken-Comes :
      (to result a : Outcome D) (s : Bytes) (more : List Bytes)
      → answer s ≡ a
      → a ≢ panicked
      → first_answer result (s ∷ more) ≡ to
      → Comes to a (testing more)
  taken-Comes to result (ok v) s more g e h = inl (sym (first_answer-ok result s more g) ∙ h, refl)
  taken-Comes to result (err m) s more g e h =
      inr (refl, sym (first_answer-err result s more g) ∙ h)
  taken-Comes to result panicked s more g e h = absurd (e refl)

  Moved-Comes :
      (to : Outcome D) {result a result' : Outcome D} {w w' : Worker}
      → Moved result a w result' w'
      → Comes to result w
      → Gets Constant w a
      → Comes to result' w'
  Moved-Comes to no_server (inl h) g = h.0
  Moved-Comes to no_server (inr h) g = h.1
  Moved-Comes to (has_result yet) (inl h) g = h.0
  Moved-Comes to (has_result yet) (inr h) g = absurd (cc)
  Moved-Comes to (asks yet) (inl h) g = absurd (cc)
  Moved-Comes to (asks yet) (inr h) g = h
  Moved-Comes to {result} (dies {s} {more} e) h g =
      sym h.1 ∙ first_answer-panicked result s more (g ∙ e)
  Moved-Comes to (too_late yet e) h g = absurd (cc)
  Moved-Comes to {result} {a} (takes {s} {more} yet e) h g = taken-Comes to result a s more g e h.1
  Moved-Comes to has_ended h g = h
  Moved-Comes to has_crashed h g = h

  -- The one worker of a call.
  abbrev OneComes : Outcome D → Outcome D → List Worker → Type ℓ
  OneComes to result ws = (length ws ≡ 1) × All (Comes to result) ws

  nobody :
      {result result' : Outcome D} {ws' : List Worker} → Turn Constant result [] result' ws' → ⊥
  nobody t = elim t [ ]

  Turn-Comes :
      (to : Outcome D) {result result' : Outcome D} {ws ws' : List Worker}
      → Turn Constant result ws result' ws'
      → OneComes to result ws
      → OneComes to result' ws'
  Turn-Comes to {result} (first {worker} {workers = []} a live got e) h =
      (refl, (Moved-Comes to (rw e at (turn-Moved result a worker)) h.1.0 got, tt))
  Turn-Comes to (first {workers = x ∷ ws} a live got e) h = absurd (omega (arith, h.0))
  Turn-Comes to (later {workers = []} t) h = elim (nobody t) [ ]
  Turn-Comes to (later {workers = x ∷ ws} t) h = absurd (omega (arith, h.0))

  Run-Comes :
      (to : Outcome D) {c d : Call D}
      → Run Constant c d
      → OneComes to c.result c.workers
      → OneComes to d.result d.workers
  Run-Comes to started h = h
  Run-Comes to (turned r t) h = Turn-Comes to t (Run-Comes to r h)

  joined-Comes :
      (to result : Outcome D) (ws : List Worker)
      → OneComes to result ws
      → AllEnded ws
      → join_workers ws result ≡ to
  unfolding join_workers
  joined-Comes to result [] h e = absurd (omega (arith, h.0))
  joined-Comes to result (testing more ∷ []) h e = elim e.0 [ ]
  joined-Comes to result (waiting s more ∷ []) h e = elim e.0 [ ]
  joined-Comes to result (ended ∷ []) h e = h.1.0
  joined-Comes to result (crashed ∷ []) h e = sym h.1.0
  joined-Comes to result (w ∷ x ∷ ws) h e = absurd (omega (arith, h.0))

  one_worker :
      (servers : List Bytes) (n : ℕ)
      → n ≡ 1
      → servers ≢ []
      → workers_from n 0 servers ≡ testing servers ∷ []
  unfolding workers_from rotate
  one_worker servers zero one some_server = absurd (omega (arith, one))
  one_worker servers (suc zero) one some_server =
      rw (zero-mod (length servers), append-nil servers) refl
  one_worker servers (suc (suc n)) one some_server = absurd (omega (arith, one))

  -- With one worker, and servers that answer alike each time, `rpc_call` asks them in turn: it returns
  -- the first value that one of them answers, and the last error where none does, and panics with an
  -- answer before those.
  pub rpc_call-first_answer :
      (config : RpcConfig) {outcome : Outcome D}
      → config.rpc_concurrency ≡ 1
      → config.rpc_server_address ≢ []
      → RpcCall Constant config outcome
      → outcome ≡ first_answer (err "couldn't find") config.rpc_server_address
  unfolding start_call concurrency
  rpc_call-first_answer config one some_server (refused e) = absurd (some_server e)
  rpc_call-first_answer config one some_server (joined {end} _ run all e) =
      let servers = config.rpc_server_address in
      let to = first_answer (err "couldn't find") servers in
      let start : OneComes to (err "couldn't find") (workers_from (concurrency config) 0 servers) =
        rw (one_worker servers (concurrency config) (ground (arith, one)) some_server)
          (refl, (inr (refl, refl), tt)) in
      e ∙ joined-Comes to end.result end.workers (Run-Comes to run start) all
