-- ===== src/Sequence/Cycle.antt =====
-- `next_seq` moves round a cycle of `seq_count` numbers.
use nkn_sdk_rust.Prelude.{ℕ, zero, suc, ◌+◌, ◌-◌, ◌%◌, ◌^◌, ◌≤◌, ◌<◌, ◌≡◌, arith, IsU32}
use nkn_sdk_rust.Prelude.Int.{ℤ, pos, negsuc, ◌+ℤ◌, pos_part, neg_part}
use nkn_sdk_rust.Sequence.{next_seq, seq_count, min_sequence_id, u32_max}

-- A number that a session uses.
abbrev pub IsSeq : ℕ → Type 0
IsSeq s = (min_sequence_id ≤ s) × (s ≤ u32_max)

-- A step of an `i64` that cannot overflow where it is added to a `u32`.
abbrev pub IsStep : ℤ → Type 0
IsStep k = (pos_part k ≤ 2 ^ 62) × (neg_part k ≤ 2 ^ 62)

pub next_seq_forward :
    (s n : ℕ) → IsSeq s → n ≤ 2 ^ 62 → next_seq s (pos n) ≡ (s - 1 + n) % seq_count + 1
unfolding next_seq
next_seq_forward s n h k = ground arith

pub next_seq_back :
    (s n : ℕ)
    → IsSeq s
    → suc n ≤ 2 ^ 62
    → next_seq s (negsuc n) ≡ (s - 1 + (seq_count - suc n % seq_count)) % seq_count + 1
unfolding next_seq
next_seq_back s n h k = ground arith

-- From 0, which no session uses, the steps are those from the last number.
zero_forward : (n : ℕ) → n ≤ 2 ^ 62 → next_seq 0 (pos n) ≡ (seq_count - 1 + n) % seq_count + 1
unfolding next_seq
zero_forward n k = ground arith

zero_back :
    (n : ℕ)
    → suc n ≤ 2 ^ 62
    → next_seq 0 (negsuc n) ≡ (seq_count - 1 + (seq_count - suc n % seq_count)) % seq_count + 1
unfolding next_seq
zero_back n k = ground arith

-- Whatever `u32` it starts from, `next_seq` returns a number that a session uses.
pub next_seq-IsSeq : (s : ℕ) (k : ℤ) → IsU32 s → IsStep k → IsSeq (next_seq s k)
next_seq-IsSeq zero (pos n) h k = omega (arith, zero_forward n)
next_seq-IsSeq zero (negsuc n) h k = omega (arith, zero_back n)
next_seq-IsSeq (suc s) (pos n) h k = omega (arith, next_seq_forward (suc s) n)
next_seq-IsSeq (suc s) (negsuc n) h k = omega (arith, next_seq_back (suc s) n)

-- From a sequence number, two steps that, like their sum, fit are one step by their sum, forwards and
-- backwards, also round the end of the range.
next_seq-next_seq :
    (s : ℕ) (j k : ℤ)
    → IsSeq s
    → IsStep j
    → IsStep k
    → IsStep (j +ℤ k)
    → next_seq (next_seq s j) k ≡ next_seq s (j +ℤ k)
unfolding ◌+ℤ◌
next_seq-next_seq s (pos a) (pos b) h hj hk hs = ground (
  arith,
  next_seq_forward s a,
  next_seq_forward s (a + b),
  next_seq_forward (next_seq s (pos a)) b,
)
next_seq-next_seq s (pos a) (negsuc b) h hj hk hs = ground (
  arith,
  next_seq_forward s a,
  next_seq_forward s (a - suc b),
  next_seq_back s (suc b - a - 1),
  next_seq_back (next_seq s (pos a)) b,
)
next_seq-next_seq s (negsuc a) (pos b) h hj hk hs = ground (
  arith,
  next_seq_back s a,
  next_seq_forward s (b - suc a),
  next_seq_back s (suc a - b - 1),
  next_seq_forward (next_seq s (negsuc a)) b,
)
next_seq-next_seq s (negsuc a) (negsuc b) h hj hk hs = ground (
  arith,
  next_seq_back s a,
  next_seq_back s (suc (a + b)),
  next_seq_back (next_seq s (negsuc a)) b,
)

-- How far `t` lies ahead of `s`.
abbrev pub ahead : ℕ → ℕ → ℕ
ahead s t = (t + seq_count - s) % seq_count

pub ahead-next_seq : (s n : ℕ) → IsSeq s → n < seq_count → ahead s (next_seq s (pos n)) ≡ n
ahead-next_seq s n h k = omega (arith, next_seq_forward s n)
