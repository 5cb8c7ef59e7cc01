-- ===== src/Connection/AckQueue.antt =====
-- The acknowledgement queue of src/connection.rs: what a round of `send_ack` collects.
use nkn_sdk_rust.Prelude.{
  true, if◌then◌else◌, ◌==◌, ◌++◌, ℕ, zero, suc, ◌+◌, ◌≤◌, ◌<◌, ◌≡◌, refl, some, List, [], ◌∷◌, ok,
  panicked, arith, length, inl, ◌⊎◌, >>=-eq-ok,
}
use nkn_sdk_rust.Prelude.Int.{pos}
use nkn_sdk_rust.Sequence.{next_seq}
use nkn_sdk_rust.Connection.{NcpConfig}
use nkn_sdk_rust.Connection.Tasks.{
  peek, take_out, extend_run, collect_acks, send_ack_round, AckLists, all_ones,
}

-- One of the elements.
abbrev pub In : ℕ → List ℕ → Type 0
In v [] = ⊥
In v (x ∷ xs) = (v ≡ x) ⊎ In v xs

pub peek-In : (b : ℕ) (xs : List ℕ) → In (peek b xs) (b ∷ xs)
unfolding peek
peek-In b [] = inl refl
peek-In b (x ∷ xs) = ground (arith, peek-In b xs, peek-In x xs)

length-take_out : (v : ℕ) (l : List ℕ) → In v l → suc (length (take_out v l)) ≡ length l
unfolding take_out
length-take_out v [] h = absurd h
length-take_out v (x ∷ xs) h = ground (arith, length-take_out v xs)

length-take_out-peek : (x : ℕ) (xs : List ℕ) → length (take_out (peek x xs) (x ∷ xs)) ≡ length xs
length-take_out-peek x xs = omega (arith, length-take_out (peek x xs) (x ∷ xs) (peek-In x xs))

-- A run takes one element out of the queue for each that it counts.
extend_run-length :
    (fuel start count : ℕ) (q : List ℕ)
    → (extend_run fuel start count q).0 + length (extend_run fuel start count q).1
      ≡ count + length q
unfolding extend_run
extend_run-length zero start count q = refl
extend_run-length (suc fuel) start count [] = refl
extend_run-length (suc fuel) start count (x ∷ xs) = ground (
  arith,
  length-take_out-peek x xs,
  extend_run-length fuel start (count + 1) (take_out (peek x xs) (x ∷ xs)),
)

extend_run-le : (fuel start count : ℕ) (q : List ℕ) → count ≤ (extend_run fuel start count q).0
unfolding extend_run
extend_run-le zero start count q = omega arith
extend_run-le (suc fuel) start count [] = omega arith
extend_run-le (suc fuel) start count (x ∷ xs) =
    ground (arith, extend_run-le fuel start (count + 1) (take_out (peek x xs) (x ∷ xs)))

abbrev pub sum : List ℕ → ℕ
sum [] = 0
sum (x ∷ xs) = x + sum xs

-- What is left of the queue after one run.
abbrev pub left : ℕ → List ℕ → ℕ × List ℕ
left x xs = extend_run (length (x ∷ xs)) (peek x xs) 1 (take_out (peek x xs) (x ∷ xs))

left-length : (x : ℕ) (xs : List ℕ) → (left x xs).0 + length (left x xs).1 ≡ length (x ∷ xs)
left-length x xs = omega (
  arith,
  extend_run-length (length (x ∷ xs)) (peek x xs) 1 (take_out (peek x xs) (x ∷ xs)),
  length-take_out-peek x xs,
)

left-pos : (x : ℕ) (xs : List ℕ) → 1 ≤ (left x xs).0
left-pos x xs = extend_run-le (length (x ∷ xs)) (peek x xs) 1 (take_out (peek x xs) (x ∷ xs))

collect_acks-totals :
    (fuel limit done : ℕ) (q : List ℕ) {l : AckLists}
    → collect_acks fuel limit done q ≡ ok l
    → (sum l.counts ≡ length q)
      × (length l.start_seqs ≡ length l.counts)
      × (limit ≤ done + length l.start_seqs)
unfolding collect_acks
collect_acks-totals zero limit done q h = cc
collect_acks-totals (suc fuel) limit done [] h = ground arith
collect_acks-totals (suc fuel) limit done (x ∷ xs) h =
    let (rest, eq, e) = >>=-eq-ok (collect_acks fuel limit (done + 1) (left x xs).1) _ h in
    let (a, b, c) = collect_acks-totals fuel limit (done + 1) (left x xs).1 {l = rest} eq in
    ground (arith, left-length x xs)

collect_acks_short :
    (fuel limit done : ℕ) (q : List ℕ)
    → done + length q < limit
    → collect_acks fuel limit done q ≡ panicked
unfolding collect_acks
collect_acks_short zero limit done q h = refl
collect_acks_short (suc fuel) limit done [] h = ground arith
collect_acks_short (suc fuel) limit done (x ∷ xs) h = rw (
    collect_acks_short fuel limit (done + 1) (left x xs).1
      (omega (arith, left-length x xs, left-pos x xs)))

-- With fewer acknowledgements queued than `max_ask_seq_list_size`, but at least one, a round of
-- `send_ack` panics: it goes on popping until it has that many runs.
send_ack_round_short :
    (config : NcpConfig) (x : ℕ) (xs : List ℕ)
    → length (x ∷ xs) < config.max_ask_seq_list_size
    → send_ack_round config (x ∷ xs) ≡ panicked
unfolding send_ack_round
send_ack_round_short config x xs h = rw (
    collect_acks_short (suc (length (x ∷ xs))) config.max_ask_seq_list_size 0 (x ∷ xs)
      (omega arith))

-- How often a number stands in a list.
abbrev pub times : ℕ → List ℕ → ℕ
times v [] = 0
times v (x ∷ xs) = (if x == v then 1 else 0) + times v xs

-- The numbers of a run, the last one first, and those of all runs of a packet, in which a run without a
-- count has one.
abbrev pub numbers : ℕ → ℕ → List ℕ
numbers start zero = []
numbers start (suc zero) = start ∷ []
numbers start (suc (suc i)) = next_seq start (pos (suc i)) ∷ numbers start (suc i)

abbrev pub told : List ℕ → List ℕ → List ℕ
told [] counts = []
told (s ∷ starts) [] = s ∷ told starts []
told (s ∷ starts) (c ∷ counts) = numbers s c ++ told starts counts

times-append : (v : ℕ) (xs ys : List ℕ) → times v (xs ++ ys) ≡ times v xs + times v ys
times-append v [] ys = omega arith
times-append v (x ∷ xs) ys = omega (arith, times-append v xs ys)

times-take_out :
    (w v : ℕ) (l : List ℕ) → In v l → (if v == w then 1 else 0) + times w (take_out v l) ≡ times w l
unfolding take_out
times-take_out w v [] h = absurd h
times-take_out w v (x ∷ xs) h = ground (arith, times-take_out w v xs)

times-extend_run :
    (w fuel start i : ℕ) (q : List ℕ)
    → let r = extend_run fuel start (suc i) q in
      times w (numbers start r.0) + times w r.1 ≡ times w (numbers start (suc i)) + times w q
unfolding extend_run
times-extend_run w zero start i q = refl
times-extend_run w (suc fuel) start i [] = refl
times-extend_run w (suc fuel) start i (x ∷ xs) = ground (
  arith,
  times-take_out w (peek x xs) (x ∷ xs) (peek-In x xs),
  times-extend_run w fuel start (suc i) (take_out (peek x xs) (x ∷ xs)),
)

times-left :
    (w x : ℕ) (xs : List ℕ)
    → times w (numbers (peek x xs) (left x xs).0) + times w (left x xs).1 ≡ times w (x ∷ xs)
times-left w x xs = omega (
  arith,
  times-extend_run w (length (x ∷ xs)) (peek x xs) 0 (take_out (peek x xs) (x ∷ xs)),
  times-take_out w (peek x xs) (x ∷ xs) (peek-In x xs),
)

times-collect_acks :
    (w fuel limit done : ℕ) (q : List ℕ) {l : AckLists}
    → collect_acks fuel limit done q ≡ ok l
    → times w (told l.start_seqs l.counts) ≡ times w q
unfolding collect_acks
times-collect_acks w zero limit done q h = cc
times-collect_acks w (suc fuel) limit done [] h = ground arith
times-collect_acks w (suc fuel) limit done (x ∷ xs) h =
    let (rest, eq, e) = >>=-eq-ok (collect_acks fuel limit (done + 1) (left x xs).1) _ h in
    let told_rest = times-collect_acks w fuel limit (done + 1) (left x xs).1 {l = rest} eq in
    ground (
      arith,
      times-left w x xs,
      times-append w (numbers (peek x xs) (left x xs).0) (told rest.start_seqs rest.counts),
    )

-- Counts that are all one may be left out.
told-all_ones :
    (starts counts : List ℕ)
    → length starts ≡ length counts
    → all_ones counts ≡ true
    → told starts [] ≡ told starts counts
told-all_ones [] counts same ones = refl
told-all_ones (s ∷ starts) [] same ones = absurd (omega (arith, same))
told-all_ones (s ∷ starts) (c ∷ counts) same ones = ground (arith, told-all_ones starts counts)

-- A round that ends well has at least `max_ask_seq_list_size` runs in its packet, with a count for each
-- or none at all, and it tells of each acknowledgement that was queued: a number stands in the runs as
-- often as it stood in the queue.
pub send_ack_round-told :
    (config : NcpConfig) (q : List ℕ) {l : AckLists}
    → send_ack_round config q ≡ ok (some l)
    → (config.max_ask_seq_list_size ≤ length l.start_seqs)
      × ((l.counts ≡ []) ⊎ (length l.start_seqs ≡ length l.counts))
      × ((number : ℕ) → times number (told l.start_seqs l.counts) ≡ times number q)
unfolding send_ack_round
send_ack_round-told config [] h = cc
send_ack_round-told config (x ∷ xs) {l} h =
    let fuel = suc (length (x ∷ xs)) in
    let limit = config.max_ask_seq_list_size in
    let (lists, eq, e) = >>=-eq-ok (collect_acks fuel limit 0 (x ∷ xs)) _ h in
    let (total, same, enough) = collect_acks-totals fuel limit 0 (x ∷ xs) {l = lists} eq in
    let shorter = told-all_ones lists.start_seqs lists.counts same in
    (
      ground arith,
      ground arith,
      λ number.
          ground (arith, shorter, times-collect_acks number fuel limit 0 (x ∷ xs) {l = lists} eq),
    )
