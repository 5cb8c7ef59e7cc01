-- ===== src/Rpc/Moves.antt =====
-- The turns of a worker of src/rpc.rs by what they do.
use nkn_sdk_rust.Prelude.{
  String, ◌≡◌, ◌≢◌, refl, true, false, List, [], ◌∷◌, Outcome, ok, err, panicked, Bytes,
}
use nkn_sdk_rust.Rpc.{Worker, testing, waiting, ended, crashed, turn, is_ok}

-- With its result and worker after the turn.
pub data Moved {ℓ} {D : Type ℓ} (result answer : Outcome D)
    : Worker → Outcome D → Worker → Type ℓ where
  no_server : Moved result answer (testing []) result ended
  has_result :
      {s : Bytes} {more : List Bytes}
      → is_ok result ≡ true
      → Moved result answer (testing (s ∷ more)) result ended
  asks :
      {s : Bytes} {more : List Bytes}
      → is_ok result ≡ false
      → Moved result answer (testing (s ∷ more)) result (waiting s more)
  dies :
      {s : Bytes} {more : List Bytes}
      → answer ≡ panicked
      → Moved result answer (waiting s more) result crashed
  too_late :
      {s : Bytes} {more : List Bytes}
      → is_ok result ≡ true
      → answer ≢ panicked
      → Moved result answer (waiting s more) result (testing more)
  takes :
      {s : Bytes} {more : List Bytes}
      → is_ok result ≡ false
      → answer ≢ panicked
      → Moved result answer (waiting s more) answer (testing more)
  has_ended : Moved result answer ended result ended
  has_crashed : Moved result answer crashed result crashed

module _ {ℓ} {D : Type ℓ} where
  not_ok : {v : D} → ◌≢◌ {A = Outcome D} (ok v) panicked
  not_ok e = absurd (cc)

  not_err : {m : String} → ◌≢◌ {A = Outcome D} (err m) panicked
  not_err e = absurd (cc)

  pub turn-Moved :
      (result answer : Outcome D) (w : Worker)
      → Moved result answer w (turn result answer w).0 (turn result answer w).1
  unfolding turn
  turn-Moved result answer (testing []) = no_server
  turn-Moved (ok v) answer (testing (s ∷ more)) = has_result refl
  turn-Moved (err m) answer (testing (s ∷ more)) = asks refl
  turn-Moved panicked answer (testing (s ∷ more)) = asks refl
  turn-Moved result panicked (waiting s more) = dies refl
  turn-Moved (ok w) (ok v) (waiting s more) = too_late refl not_ok
  turn-Moved (ok w) (err m) (waiting s more) = too_late refl not_err
  turn-Moved (err n) (ok v) (waiting s more) = takes refl not_ok
  turn-Moved (err n) (err m) (waiting s more) = takes refl not_err
  turn-Moved panicked (ok v) (waiting s more) = takes refl not_ok
  turn-Moved panicked (err m) (waiting s more) = takes refl not_err
  turn-Moved result answer ended = has_ended
  turn-Moved result answer crashed = has_crashed
