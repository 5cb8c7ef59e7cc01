-- ===== src/Rpc/Answers.antt =====
-- What a call of src/rpc.rs returns, in whatever order the workers take their turns.
use nkn_sdk_rust.Prelude.{
  ℕ, zero, suc, ◌%◌, ◌≡◌, refl, sym, ◌∙◌, List, [], ◌∷◌, Outcome, ok, err, panicked, Bytes, length,
  IsIn, here, there, All,
}
use nkn_sdk_rust.Rpc.{
  RpcConfig, Worker, testing, waiting, ended, crashed, workers_from, concurrency, start_call,
  join_workers, RpcCall, refused, joined,
}
use nkn_sdk_rust.Rpc.Moves.{
  no_server, has_result, asks, dies, too_late, takes, has_ended, has_crashed,
}
use nkn_sdk_rust.Rpc.Workers.{Keeps, Run-Keeps}
use nkn_sdk_rust.Rpc.Rotation.{IsIn-rotate}

module _ {ℓ} {D : Type ℓ} (Answers : Bytes → Outcome D → Type ℓ) (servers : List Bytes) where
  -- A worker asks only servers of the call.
  abbrev Asks : Worker → Type 0
  Asks (testing more) = (s : Bytes) → IsIn s more → IsIn s servers
  Asks (waiting server more) = IsIn server servers × ((s : Bytes) → IsIn s more → IsIn s servers)
  Asks ended = Unit
  Asks crashed = Unit

  -- A result was the answer of a server.
  abbrev IsAnswered : Outcome D → Type ℓ
  IsAnswered (ok value) = (s : Bytes) × IsIn s servers × Answers s (ok value)
  IsAnswered (err message) = Unit {ℓ}
  IsAnswered panicked = Unit {ℓ}

  Answers-IsAnswered :
      (s : Bytes) (answer : Outcome D) → IsIn s servers → Answers s answer → IsAnswered answer
  Answers-IsAnswered s (ok value) there_is given = (s, there_is, given)
  Answers-IsAnswered s (err message) there_is given = tt
  Answers-IsAnswered s panicked there_is given = tt

  Asks-Keeps : Keeps Answers Asks IsAnswered
  Asks-Keeps result answer result' w w' no_server g h a = (tt, a)
  Asks-Keeps result answer result' w w' (has_result yet) g h a = (tt, a)
  Asks-Keeps result answer result' w w' (asks {s} yet) g h a =
      ((h s (here refl), λ t i. h t (there i)), a)
  Asks-Keeps result answer result' w w' (dies e) g h a = (tt, a)
  Asks-Keeps result answer result' w w' (too_late yet e) g h a = (h.1, a)
  Asks-Keeps result answer result' w w' (takes {s} yet e) g h a =
      (h.1, Answers-IsAnswered s answer h.0 g)
  Asks-Keeps result answer result' w w' has_ended g h a = (tt, a)
  Asks-Keeps result answer result' w w' has_crashed g h a = (tt, a)

  workers_from-Asks : (n i : ℕ) → All Asks (workers_from n i servers)
  unfolding workers_from
  workers_from-Asks zero i = tt
  workers_from-Asks (suc n) i =
      ((λ s h. IsIn-rotate (i % length servers) servers s h), workers_from-Asks n (suc i))

module _ {ℓ} {D : Type ℓ} where
  -- The workers that are joined give the shared result, or the call panics.
  join_workers-ok :
      (ws : List Worker) (result : Outcome D) {value : D}
      → join_workers ws result ≡ ok value
      → result ≡ ok value
  unfolding join_workers
  join_workers-ok [] result e = e
  join_workers-ok (crashed ∷ ws) result e = absurd (cc)
  join_workers-ok (ended ∷ ws) result e = join_workers-ok ws result e
  join_workers-ok (testing more ∷ ws) result e = join_workers-ok ws result e
  join_workers-ok (waiting s more ∷ ws) result e = join_workers-ok ws result e

module _ {ℓ} {D : Type ℓ} (Answers : Bytes → Outcome D → Type ℓ) where
  -- A value that `rpc_call` returns was the answer of one of the servers of its configuration.
  pub rpc_call-Answers :
      (config : RpcConfig) {value : D} {outcome : Outcome D}
      → RpcCall Answers config outcome
      → outcome ≡ ok value
      → (s : Bytes) × IsIn s config.rpc_server_address × Answers s (ok value)
  unfolding start_call
  rpc_call-Answers config (refused e) returned = absurd (cc)
  rpc_call-Answers config (joined {end} some_server run all e) returned =
      let result = join_workers-ok end.workers end.result (sym e ∙ returned) in
      let answered =
        (Run-Keeps Answers (Asks Answers config.rpc_server_address)
          (IsAnswered Answers config.rpc_server_address)
          (Asks-Keeps Answers config.rpc_server_address) run
          (workers_from-Asks Answers config.rpc_server_address (concurrency config) 0) tt).1 in
      rw result at answered
