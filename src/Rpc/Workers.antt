-- ===== src/Rpc/Workers.antt =====
-- Invariants of the workers of src/rpc.rs: what each turn keeps, every run keeps.
use nkn_sdk_rust.Prelude.{List, Outcome, Bytes, All}
use nkn_sdk_rust.Rpc.Moves.{Moved, turn-Moved}
use nkn_sdk_rust.Rpc.{Worker, Call, Gets, Turn, first, later, Run, started, turned}

module _ {ℓ κ} {D : Type ℓ} (Answers : Bytes → Outcome D → Type ℓ) (P : Worker → Type κ)
    (Q : Outcome D → Type ℓ) where
  -- A turn keeps `P` of the worker and `Q` of the shared result.
  abbrev pub Keeps : Type (ℓ ⊔ κ)
  Keeps =
      (result answer result' : Outcome D) (w w' : Worker)
      → Moved result answer w result' w'
      → Gets Answers w answer
      → P w
      → Q result
      → P w' × Q result'

  Turn-Keeps :
      {result result' : Outcome D} {ws ws' : List Worker}
      → Keeps
      → Turn Answers result ws result' ws'
      → All P ws
      → Q result
      → All P ws' × Q result'
  Turn-Keeps {result} keeps (first {worker} answer live got e) h q =
      let (p, q') = keeps _ _ _ _ _ (rw e at (turn-Moved result answer worker)) got h.0 q in
      ((p, h.1), q')
  Turn-Keeps keeps (later t) h q = let (more, q') = Turn-Keeps keeps t h.1 q in ((h.0, more), q')

  pub Run-Keeps :
      {c d : Call D}
      → Keeps
      → Run Answers c d
      → All P c.workers
      → Q c.result
      → All P d.workers × Q d.result
  Run-Keeps keeps started h q = (h, q)
  Run-Keeps keeps (turned r t) h q =
      let (h', q') = Run-Keeps keeps r h q in Turn-Keeps keeps t h' q'
