-- ===== src/Prelude/Words.antt =====
-- Bytes and machine words as native numbers, and the check of `str::from_utf8`.
use Prim.Native.Nat.{ℕ, zero, suc, ◌^◌, ◌<◌}
use mathlib.Core.Bool.{Bool, true, false, ◌&&◌}
use mathlib.Core.List.{List, [], ◌∷◌}
use mathlib.Core.Option.{Option, none, some}
use nkn_sdk_rust.Prelude.Tests.{leb, ltb, if◌then◌else◌}

abbrev pub Bytes : Type 0
Bytes = List ℕ

abbrev pub IsU8 : ℕ → Type 0
IsU8 v = v < 256

abbrev pub IsU16 : ℕ → Type 0
IsU16 v = v < 2 ^ 16

abbrev pub IsU32 : ℕ → Type 0
IsU32 v = v < 2 ^ 32

abbrev pub IsU64 : ℕ → Type 0
IsU64 v = v < 2 ^ 64

-- What may follow: how many continuation bytes, and the range of the next one.
pub record Pending : Type 0 where
  pub need : ℕ
  pub low : ℕ
  pub high : ℕ

abbrev pub pending : ℕ → ℕ → ℕ → Option Pending
pending n lo hi = some (record { need = n; low = lo; high = hi })

-- The first byte of a code point.
abbrev pub lead_byte : ℕ → Option Pending
lead_byte b =
    if ltb b 0x80
    then pending 0 0 0
    else if ltb b 0xc2
    then none
    else if ltb b 0xe0
    then pending 1 0x80 0xbf
    else if leb b 0xe0
    then pending 2 0xa0 0xbf
    else if ltb b 0xed
    then pending 2 0x80 0xbf
    else if leb b 0xed
    then pending 2 0x80 0x9f
    else if ltb b 0xf0
    then pending 2 0x80 0xbf
    else if leb b 0xf0
    then pending 3 0x90 0xbf
    else if ltb b 0xf4
    then pending 3 0x80 0xbf
    else if leb b 0xf4
    then pending 3 0x80 0x8f
    else none

abbrev pub next_byte : Pending → ℕ → ℕ → Option Pending
next_byte p zero b = lead_byte b
next_byte p (suc n) b = if leb p.low b && leb b p.high then pending n 0x80 0xbf else none

abbrev pub is_zero : ℕ → Bool
is_zero zero = true
is_zero (suc n) = false

-- Before a code point.
abbrev pub start : Pending
start = record { need = 0; low = 0; high = 0 }

abbrev utf8_from : Option Pending → Bytes → Bool
utf8_from none bs = false
utf8_from (some p) [] = is_zero p.need
utf8_from (some p) (b ∷ bs) = utf8_from (next_byte p p.need b) bs

unfoldable pub is_utf8 : Bytes → Bool
is_utf8 bs = utf8_from (some start) bs
