-- ===== src/Rpc/Runs.antt =====
-- Calls of src/rpc.rs at concrete configurations, with numbers for values.
use nkn_sdk_rust.Prelude.{
  is_utf8, ℕ, ◌+◌, ◌*◌, ◌≤◌, ◌≡◌, ◌≢◌, refl, sym, ◌⊎◌, true, List, [], ◌∷◌, Outcome, ok, err,
  panicked, Bytes, length, IsIn, here, there,
}
use nkn_sdk_rust.Rpc.{
  RpcConfig, Worker, testing, waiting, ended, AllEnded, turn, is_ok, rotate, workers_from,
  concurrency, Call, start_call, join_workers, Turn, first, Run, started, turned, RpcCall, refused,
  joined, default_rpc_config, send_raw_transaction,
}
use nkn_sdk_rust.Rpc.Answers.{rpc_call-Answers}
use nkn_sdk_rust.Rpc.Finding.{rpc_call_finds}
use nkn_sdk_rust.Rpc.Ending.{rpc_call_ends, turns_taken}
use nkn_sdk_rust.Rpc.Sequential.{Constant, first_answer, rpc_call-first_answer}

abbrev down : Bytes
down = b'd' ∷ []

abbrev up : Bytes
up = b'u' ∷ b'p' ∷ []

-- A server with a name of one byte is down.
abbrev answering : Bytes → Outcome ℕ
answering [] = err "no name"
answering (x ∷ []) = err "connection refused"
answering (x ∷ y ∷ more) = ok 7

abbrev two_servers : RpcConfig
two_servers = record { rpc_server_address = down ∷ up ∷ []; rpc_timeout = 10; rpc_concurrency = 1 }

abbrev asking_down : Call ℕ
asking_down = record { result = err "couldn't find"; workers = waiting down (up ∷ []) ∷ [] }

abbrev refused_by_down : Call ℕ
refused_by_down = record { result = err "connection refused"; workers = testing (up ∷ []) ∷ [] }

abbrev asking_up : Call ℕ
asking_up = record { result = err "connection refused"; workers = waiting up [] ∷ [] }

abbrev answered : Call ℕ
answered = record { result = ok 7; workers = testing [] ∷ [] }

abbrev over : Call ℕ
over = record { result = ok 7; workers = ended ∷ [] }

abbrev answered_run : Run (Constant answering) (start_call two_servers) over
unfolding start_call workers_from concurrency rotate turn
answered_run =
    turned {e = over}
      (turned {e = answered}
        (turned {e = asking_up}
          (turned {e = refused_by_down}
            (turned {e = asking_down} started (first (err "") tt tt refl))
            (first (err "connection refused") tt refl refl))
          (first (err "") tt tt refl))
        (first (ok 7) tt refl refl))
      (first (err "") tt tt refl)

abbrev some_server : two_servers.rpc_server_address ≢ []
some_server e = absurd (cc)

abbrev two_servers_call : RpcCall (Constant answering) two_servers (ok 7)
unfolding join_workers
two_servers_call = joined {end = over} some_server answered_run (tt, tt) refl

rpc_call-Answers_example :
    (s : Bytes) × IsIn s two_servers.rpc_server_address × (answering s ≡ ok 7)
rpc_call-Answers_example = rpc_call-Answers (Constant answering) two_servers two_servers_call refl

up_answers : (a : Outcome ℕ) → answering up ≡ a → is_ok a ≡ true
up_answers a e = rw (sym e) refl

nobody_panics : (s : Bytes) (a : Outcome ℕ) → answering s ≡ a → a ≢ panicked
nobody_panics [] a e p = absurd (cc)
nobody_panics (x ∷ []) a e p = absurd (cc)
nobody_panics (x ∷ y ∷ more) a e p = absurd (cc)

rpc_call_finds_example :
    ((outcome : Outcome ℕ) × RpcCall (Constant answering) two_servers outcome)
    × ((outcome : Outcome ℕ)
        → RpcCall (Constant answering) two_servers outcome
        → is_ok outcome ≡ true)
rpc_call_finds_example =
    rpc_call_finds (Constant answering) two_servers up (there (here refl))
      (λ s. (answering s, refl)) up_answers nobody_panics

rpc_call_ends_example :
    (turns_taken (Constant answering) answered_run
      ≤ concurrency two_servers * (2 * length two_servers.rpc_server_address + 1))
    × (AllEnded over.workers
        ⊎ ((result' : Outcome ℕ) × (ws' : List Worker) × Turn
              (Constant answering)
              over.result
              over.workers
              result'
              ws'))
    × ((end : Call ℕ) × Run (Constant answering) over end × AllEnded end.workers)
rpc_call_ends_example =
    rpc_call_ends (Constant answering) two_servers (λ s. (answering s, refl)) answered_run

rpc_call-first_answer_example :
    ok 7 ≡ first_answer answering (err "couldn't find") two_servers.rpc_server_address
rpc_call-first_answer_example =
    rpc_call-first_answer answering two_servers refl some_server two_servers_call

-- The default configuration has no servers.
default_call : RpcCall (Constant answering) default_rpc_config (err "No server addresses in config")
default_call = refused refl

-- The first byte of the wire format of a signed transaction is that of a field with a length, which is
-- ASCII; the bytes of a hash need not be.
send_raw_transaction_bytes :
    send_raw_transaction (λ encoded. ok encoded) (10 ∷ 2 ∷ 200 ∷ 1 ∷ []) ≡ err "Utf8"
unfolding send_raw_transaction is_utf8
send_raw_transaction_bytes = refl
