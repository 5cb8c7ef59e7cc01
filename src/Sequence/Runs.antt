-- ===== src/Sequence/Runs.antt =====
-- Sequence numbers at concrete inputs.
use nkn_sdk_rust.Prelude.{◌-◌, ◌<◌, ◌≡◌, ◌↔◌, refl, true, arith}
use nkn_sdk_rust.Prelude.Int.{pos, negsuc}
use nkn_sdk_rust.Sequence.{next_seq, seq_in_between, u32_max}
use nkn_sdk_rust.Sequence.Cycle.{ahead}
use nkn_sdk_rust.Sequence.Order.{seq_in_between_iff}

next_seq_wraps : next_seq u32_max (pos 1) ≡ 1
unfolding next_seq
next_seq_wraps = refl

next_seq_before_one : next_seq 1 (negsuc 0) ≡ u32_max
unfolding next_seq
next_seq_before_one = refl

seq_in_between_across : seq_in_between 2 (u32_max - 1) 5 ≡ true
unfolding seq_in_between
seq_in_between_across = refl

seq_in_between_iff_example :
    (seq_in_between 2 (u32_max - 1) 5 ≡ true) ↔ (ahead (u32_max - 1) 2 < ahead (u32_max - 1) 5)
seq_in_between_iff_example =
    seq_in_between_iff 2 (u32_max - 1) 5 (omega arith) (omega arith) (omega arith)
