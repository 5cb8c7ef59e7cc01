-- ===== src/Sequence.antt =====
-- src/utils.rs, `next_seq` to `SeqElem`: the sequence numbers of a session. They run from
-- MIN_SEQUENCE_ID to u32::MAX, and MIN_SEQUENCE_ID comes after u32::MAX.
pub mod Cycle
pub mod Order
mod Runs
use nkn_sdk_rust.Prelude.{
  ℕ, zero, suc, ◌-◌, ◌/◌, ◌^◌, Bool, ◌&&◌, ◌||◌, ltb, leb, ◌==◌, if◌then◌else◌,
}
use nkn_sdk_rust.Prelude.Int.{ℤ, pos, negsuc, ◌+ℤ◌, ◌-ℤ◌, ltb_ℤ, rem_ℤ, wrap_i64, to_u32}

-- src/session.rs
abbrev pub min_sequence_id : ℕ
min_sequence_id = 1

abbrev pub u32_max : ℕ
u32_max = 2 ^ 32 - 1

-- `u32::MAX - MIN_SEQUENCE_ID + 1`
abbrev pub seq_count : ℕ
seq_count = 2 ^ 32 - 1

unfoldable pub next_seq : ℕ → ℤ → ℕ
unfolding ◌+ℤ◌ ◌-ℤ◌ rem_ℤ wrap_i64 to_u32
next_seq seq step =
    let res = rem_ℤ (wrap_i64 (wrap_i64 (pos seq -ℤ pos min_sequence_id) +ℤ step)) seq_count in
    let res' = if ltb_ℤ res (pos 0) then res +ℤ pos seq_count else res in
    to_u32 (res' +ℤ pos min_sequence_id)

-- `seq`, `start` and `end`, in the order of the parameters.
unfoldable pub seq_in_between : ℕ → ℕ → ℕ → Bool
seq_in_between seq start end =
    if leb start end then leb start seq && ltb seq end else leb start seq || ltb seq end

unfoldable pub compare_seq : ℕ → ℕ → ℤ
compare_seq a b =
    if a == b
    then pos 0
    else if ltb a b
    then (if ltb (b - a) (u32_max / 2) then negsuc 0 else pos 1)
    else if ltb (a - b) (u32_max / 2)
    then pos 1
    else negsuc 0

-- `cmp` of `SeqElem`; `partial_cmp` is `Some` of it.
pub data Ordering : Type 0 where
  less equal greater : Ordering

abbrev ordering_of : ℤ → Ordering
ordering_of (pos zero) = equal
ordering_of (pos (suc n)) = greater
ordering_of (negsuc zero) = less
ordering_of (negsuc (suc n)) = greater

unfoldable pub cmp : ℕ → ℕ → Ordering
unfolding compare_seq
cmp a b = ordering_of (compare_seq a b)
