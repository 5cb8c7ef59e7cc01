-- ===== src/Connection/AckRuns.antt =====
-- The queue of src/connection.rs is a max-heap, so what is popped after a number is never the number
-- that follows it: no run is longer than one.
use nkn_sdk_rust.Prelude.{
  ℕ, zero, suc, ◌+◌, ◌≤◌, ◌<◌, ◌≡◌, ◌≢◌, refl, true, List, [], ◌∷◌, ok, some, arith, length, inl,
  inr, ◌⊎◌, All, >>=-eq-ok, ap,
}
use nkn_sdk_rust.Sequence.{cmp, less, compare_seq}
use nkn_sdk_rust.Sequence.Cycle.{IsSeq, ahead, next_seq_forward}
use nkn_sdk_rust.Sequence.Order.{half}
use nkn_sdk_rust.Connection.{NcpConfig}
use nkn_sdk_rust.Connection.Tasks.{
  peek, take_out, extend_run, collect_acks, send_ack_round, AckLists, all_ones,
}
use nkn_sdk_rust.Connection.AckQueue.{In, peek-In, left}

-- A number less than half the range ahead of `base`.
abbrev pub IsNear : ℕ → ℕ → Type 0
IsNear base x = IsSeq x × (ahead base x < half)

cmp-ahead :
    (base a b : ℕ)
    → IsSeq base
    → IsNear base a
    → IsNear base b
    → ((cmp a b ≡ less) × (ahead base a < ahead base b))
      ⊎ ((cmp a b ≢ less) × (ahead base b ≤ ahead base a))
unfolding cmp compare_seq
cmp-ahead base a b hb ha h = ground arith

-- `peek` is the one that is furthest ahead.
abbrev IsBelow : ℕ → ℕ → ℕ → Type 0
IsBelow base top x = IsNear base x × (ahead base x ≤ ahead base top)

All-IsNear-peek :
    (base b : ℕ) (xs : List ℕ)
    → IsSeq base
    → IsNear base b
    → All (IsNear base) xs
    → All (IsBelow base (peek b xs)) (b ∷ xs)
unfolding peek
All-IsNear-peek base b [] s hb h = ground arith
All-IsNear-peek base b (x ∷ xs) s hb h = ground (
  arith,
  cmp-ahead base b x s hb h.0,
  All-IsNear-peek base b xs s hb h.1,
  All-IsNear-peek base x xs s h.0 h.1,
)

All-take_out {κ} : (P : ℕ → Type κ) (v : ℕ) (xs : List ℕ) → All P xs → All P (take_out v xs)
unfolding take_out
All-take_out P v [] h = h
All-take_out P v (x ∷ xs) h = ground (arith, All-take_out P v xs h.1)

All-In {κ} : (P : ℕ → Type κ) (v : ℕ) (xs : List ℕ) → All P xs → In v xs → P v
All-In P v [] h i = absurd i
All-In P v (x ∷ xs) h (inl e) = rw e h.0
All-In P v (x ∷ xs) h (inr i) = All-In P v xs h.1 i

-- Where everything in the queue is at most `top`, no run goes on from `top`.
extend_run_below :
    (base top fuel : ℕ) (q : List ℕ)
    → IsSeq base
    → IsNear base top
    → All (IsBelow base top) q
    → extend_run fuel top 1 q ≡ (1, q)
unfolding extend_run
extend_run_below base top zero q s t h = refl
extend_run_below base top (suc fuel) [] s t h = refl
extend_run_below base top (suc fuel) (x ∷ xs) s t h =
    let p : IsBelow base top (peek x xs) =
      All-In (IsBelow base top) (peek x xs) (x ∷ xs) h (peek-In x xs) in
    ground (arith, next_seq_forward top 1)

All-IsNear : (base top : ℕ) (xs : List ℕ) → All (IsBelow base top) xs → All (IsNear base) xs
All-IsNear base top [] h = tt
All-IsNear base top (x ∷ xs) h = (h.0.0, All-IsNear base top xs h.1)

-- The first run is one long, and what is left is near as well.
left_one :
    (base x : ℕ) (xs : List ℕ)
    → IsSeq base
    → All (IsNear base) (x ∷ xs)
    → ((left x xs).0 ≡ 1) × All (IsNear base) (left x xs).1
left_one base x xs s h =
    let top = peek x xs in
    let rest = take_out top (x ∷ xs) in
    let below = All-IsNear-peek base x xs s h.0 h.1 in
    let near : IsNear base top = All-In (IsNear base) top (x ∷ xs) h (peek-In x xs) in
    let kept : All (IsBelow base top) rest = All-take_out (IsBelow base top) top (x ∷ xs) below in
    let e = extend_run_below base top (length (x ∷ xs)) rest s near kept in
    (ap (λ (p : ℕ × List ℕ). p.0) e, rw e (All-IsNear base top rest kept))

collect_acks-all_ones :
    (base fuel limit done : ℕ) (q : List ℕ) {l : AckLists}
    → IsSeq base
    → All (IsNear base) q
    → collect_acks fuel limit done q ≡ ok l
    → all_ones l.counts ≡ true
unfolding collect_acks
collect_acks-all_ones base zero limit done q s h e = cc
collect_acks-all_ones base (suc fuel) limit done [] s h e = ground arith
collect_acks-all_ones base (suc fuel) limit done (x ∷ xs) s h e =
    let (rest, eq, e') = >>=-eq-ok (collect_acks fuel limit (done + 1) (left x xs).1) _ e in
    let (one_long, near) = left_one base x xs s h in
    ground
      (arith, collect_acks-all_ones base fuel limit (done + 1) (left x xs).1 {l = rest} s near eq)

-- Where the queued numbers are less than half the range ahead of one number, the packet of a round
-- of `send_ack` has no counts.
send_ack_round_no_counts :
    (config : NcpConfig) (base : ℕ) (q : List ℕ) {l : AckLists}
    → IsSeq base
    → All (IsNear base) q
    → send_ack_round config q ≡ ok (some l)
    → l.counts ≡ []
unfolding send_ack_round
send_ack_round_no_counts config base [] s h e = cc
send_ack_round_no_counts config base (x ∷ xs) s h e =
    let fuel = suc (length (x ∷ xs)) in
    let limit = config.max_ask_seq_list_size in
    let (lists, eq, e') = >>=-eq-ok (collect_acks fuel limit 0 (x ∷ xs)) _ e in
    ground (arith, collect_acks-all_ones base fuel limit 0 (x ∷ xs) {l = lists} s h eq)
