-- ===== src/Rpc.antt =====
-- src/rpc.rs: calls of the RPC servers of the network. `rpc_call` starts workers that ask the servers
-- one by one and share the result; here a worker is what it has left to do, and a call is a run in
-- which the workers take turns in any order.
pub mod Moves
pub mod Rotation
pub mod Workers
pub mod Answers
pub mod Finding
pub mod Ending
pub mod Sequential
mod Runs
use nkn_sdk_rust.Prelude.{
  ℕ, zero, suc, ◌+◌, ◌%◌, ◌==◌, ltb, if◌then◌else◌, Bool, true, false, List, [], ◌∷◌, ◌++◌, Option,
  none, some, Outcome, ok, err, panicked, ◌>>=◌, ◌>>◌, Bytes, length, take, drop, unwrap, refuse_if,
  String, is_utf8, All, ◌≡◌, ◌≢◌,
}

pub record RpcConfig : Type 0 where
  pub rpc_server_address : List Bytes
  pub rpc_timeout : ℕ
  pub rpc_concurrency : ℕ

abbrev pub default_rpc_config : RpcConfig
default_rpc_config = record { rpc_server_address = []; rpc_timeout = 10; rpc_concurrency = 1 }

-- The body of a response. The texts of an error are put together by the formatter.
pub record RpcResponse {ℓ} (D : Type ℓ) : Type ℓ where
  pub result : Option D
  pub failure : Option String

-- `[right, left].concat()` of a split at `i`.
unfoldable pub rotate : ℕ → List Bytes → List Bytes
rotate i servers = drop i servers ++ take i servers

-- A worker: before its test of the shared result, waiting for a server, or at its end.
pub data Worker : Type 0 where
  testing : List Bytes → Worker
  waiting : Bytes → List Bytes → Worker
  ended : Worker
  crashed : Worker

-- Who has not ended.
abbrev pub IsLive : Worker → Type 0
IsLive (testing servers) = Unit
IsLive (waiting server servers) = Unit
IsLive ended = ⊥
IsLive crashed = ⊥

-- The `i`-th worker has the servers from the `i`-th on, round the end.
unfoldable pub workers_from : ℕ → ℕ → List Bytes → List Worker
unfolding rotate
workers_from zero i servers = []
workers_from (suc n) i servers =
    testing (rotate (i % length servers) servers) ∷ workers_from n (suc i) servers

unfoldable pub concurrency : RpcConfig → ℕ
concurrency config =
    if ltb 0 config.rpc_concurrency
    then config.rpc_concurrency
    else length config.rpc_server_address

abbrev pub IsEnded : Worker → Type 0
IsEnded ended = Unit
IsEnded crashed = Unit
IsEnded (testing servers) = ⊥
IsEnded (waiting server servers) = ⊥

abbrev pub AllEnded : List Worker → Type 0
AllEnded workers = All IsEnded workers

-- The shared result and the workers.
pub record Call {ℓ} (D : Type ℓ) : Type ℓ where
  pub result : Outcome D
  pub workers : List Worker

module _ {ℓ} {D : Type ℓ} where
  -- `http_post`, from what the HTTP client and the JSON parser give: an error of theirs, or a response.
  unfoldable pub http_post : Outcome (RpcResponse D) → Outcome D
  http_post response = do
    res ← response
    elim res.failure [ some message ↦ err message | none ↦ unwrap res.result ]

  abbrev pub is_ok : Outcome D → Bool
  is_ok (ok value) = true
  is_ok (err message) = false
  is_ok panicked = false

  -- The answer of a server is taken where there is no result yet.
  abbrev pub store_answer : Outcome D → Outcome D → Outcome D
  store_answer (ok value) answer = ok value
  store_answer (err message) answer = answer
  store_answer panicked answer = answer

  -- One turn of a worker, with the answer of the server that it waits for.
  unfoldable pub turn : Outcome D → Outcome D → Worker → Outcome D × Worker
  turn result answer (testing []) = (result, ended)
  turn result answer (testing (server ∷ servers)) =
      (result, if is_ok result then ended else waiting server servers)
  turn result panicked (waiting server servers) = (result, crashed)
  turn result (err message) (waiting server servers) =
      (store_answer result (err message), testing servers)
  turn result (ok value) (waiting server servers) =
      (store_answer result (ok value), testing servers)
  turn result answer ended = (result, ended)
  turn result answer crashed = (result, crashed)

  unfoldable pub start_call : RpcConfig → Call D
  unfolding workers_from concurrency
  start_call config = record {
    result = err "couldn't find";
    workers = workers_from (concurrency config) 0 config.rpc_server_address;
  }

  -- The workers are waited for one by one: the call panics with each of them that did.
  unfoldable pub join_workers : List Worker → Outcome D → Outcome D
  join_workers [] result = result
  join_workers (crashed ∷ workers) result = panicked
  join_workers (worker ∷ workers) result = join_workers workers result

-- What a server may answer to one request.
module _ {ℓ} {D : Type ℓ} (Answers : Bytes → Outcome D → Type ℓ) where
  -- The answer that a worker gets in its turn.
  abbrev pub Gets : Worker → Outcome D → Type ℓ
  Gets (waiting server servers) answer = Answers server answer
  Gets (testing servers) answer = Unit {ℓ}
  Gets ended answer = Unit {ℓ}
  Gets crashed answer = Unit {ℓ}

  -- One of the workers takes its turn.
  pub data Turn (result : Outcome D) : List Worker → Outcome D → List Worker → Type ℓ where
    first :
        {worker worker' : Worker} {workers : List Worker} {result' : Outcome D} (answer : Outcome D)
        → IsLive worker
        → Gets worker answer
        → turn result answer worker ≡ (result', worker')
        → Turn result (worker ∷ workers) result' (worker' ∷ workers)
    later :
        {worker : Worker} {workers workers' : List Worker} {result' : Outcome D}
        → Turn result workers result' workers'
        → Turn result (worker ∷ workers) result' (worker ∷ workers')

  pub data Run (c : Call D) : Call D → Type ℓ where
    started : Run c c
    turned : {d e : Call D} → Run c d → Turn d.result d.workers e.result e.workers → Run c e

  -- The results that `rpc_call` can have.
  pub data RpcCall (config : RpcConfig) : Outcome D → Type ℓ where
    refused : config.rpc_server_address ≡ [] → RpcCall config (err "No server addresses in config")
    joined :
        {end : Call D} {outcome : Outcome D}
        → config.rpc_server_address ≢ []
        → Run (start_call config) end
        → AllEnded end.workers
        → outcome ≡ join_workers end.workers end.result
        → RpcCall config outcome

-- `send_raw_transaction`, with the answer of the servers to the call: the bytes are sent as a text.
unfoldable pub send_raw_transaction : (Bytes → Outcome Bytes) → Bytes → Outcome Bytes
send_raw_transaction call encoded = if is_utf8 encoded then call encoded else err "Utf8"
