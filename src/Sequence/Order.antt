-- ===== src/Sequence/Order.antt =====
-- Intervals and the order of sequence numbers, on a cycle.
use nkn_sdk_rust.Prelude.{ℕ, ◌+◌, ◌-◌, ◌^◌, ◌≤◌, ◌<◌, ◌≡◌, ◌↔◌, true, arith}
use nkn_sdk_rust.Prelude.Int.{pos, negsuc, ◌-ℤ◌}
use nkn_sdk_rust.Sequence.{next_seq, seq_in_between, compare_seq, cmp, less, greater}
use nkn_sdk_rust.Sequence.Cycle.{IsSeq, ahead, next_seq_forward}

-- `seq_in_between x start end` holds exactly when `x` is met before `end` on the way up from
-- `start`, round the end of the range where that comes first.
pub seq_in_between_iff :
    (x start end : ℕ)
    → IsSeq x
    → IsSeq start
    → IsSeq end
    → (seq_in_between x start end ≡ true) ↔ (ahead start x < ahead start end)
unfolding seq_in_between
seq_in_between_iff x start end hx hs he = ground arith

-- Half of the range: numbers that are nearer than this are compared by their distance.
abbrev pub half : ℕ
half = 2 ^ 31 - 1

-- The order of two numbers is reversed when they change places, and they are equal only if they
-- are the same.
compare_seq_antisymm :
    (a b : ℕ) → (compare_seq b a ≡ pos 0 -ℤ compare_seq a b) × ((compare_seq a b ≡ pos 0) ↔ (a ≡ b))
unfolding compare_seq ◌-ℤ◌
compare_seq_antisymm a b = ground arith

-- A sequence number is less than each number that is up to half the range ahead of it, also across
-- the wrap.
compare_seq-next_seq :
    (s n : ℕ) → IsSeq s → 0 < n → n < half → compare_seq s (next_seq s (pos n)) ≡ negsuc 0
unfolding compare_seq
compare_seq-next_seq s n h lo hi = ground (arith, next_seq_forward s n)

-- Of three sequence numbers, if the first is less than the second, the second less than the third,
-- and the way up from the first over the second to the third is shorter than half the range, then
-- the first is less than the third.
compare_seq_trans :
    (a b c : ℕ)
    → IsSeq a
    → IsSeq b
    → IsSeq c
    → ahead a b + ahead b c < half
    → compare_seq a b ≡ negsuc 0
    → compare_seq b c ≡ negsuc 0
    → compare_seq a c ≡ negsuc 0
unfolding compare_seq
compare_seq_trans a b c ha hb hc near p q = ground arith

-- `cmp` is not transitive: three numbers whose neighbours are less than half the range apart, and
-- whose outer two are half the range apart or more, go round in a circle.
cmp_cyclic :
    (a d e : ℕ)
    → 0 < d
    → d < half
    → 0 < e
    → e < half
    → half ≤ d + e
    → (cmp a (a + d) ≡ less) × (cmp (a + d) (a + d + e) ≡ less) × (cmp a (a + d + e) ≡ greater)
unfolding cmp compare_seq
cmp_cyclic a d e hd hd' he he' far = ground arith
