-- ===== src/Addresses/Lossy.antt =====
-- `String::from_utf8_lossy`: each longest piece that could have begun a code point and does not
-- finish it is replaced by U+FFFD.
use nkn_sdk_rust.Prelude.{[], ◌∷◌, ◌++◌, Option, none, some, Bytes, if◌then◌else◌}
use nkn_sdk_rust.Prelude.Words.{Pending, lead_byte, next_byte, is_zero, start}

-- What the code point at hand waits for, and its bytes so far.
abbrev State : Type 0
State = Pending × Bytes

abbrev replacement : Bytes
replacement = 0xef ∷ 0xbf ∷ 0xbd ∷ []

-- A first byte of a code point.
abbrev begin : Bytes → Bytes → Option Pending → State × Bytes
begin out seen none = ((start, []), out ++ replacement)
begin out seen (some p) = if is_zero p.need then ((start, []), out ++ seen) else ((p, seen), out)

-- One more byte: the new state, and the output so far.
abbrev step : State → Bytes → Bytes → Option Pending → State × Bytes
step (p, seen) out one (some q) =
    if is_zero q.need then ((start, []), out ++ (seen ++ one)) else ((q, seen ++ one), out)
step (p, seen) out [] none = ((p, seen), out)
step (p, seen) out (b ∷ bs) none =
    if is_zero p.need
    then ((start, []), out ++ replacement)
    else begin (out ++ replacement) (b ∷ bs) (lead_byte b)

abbrev lossy_from : State × Bytes → Bytes → Bytes
lossy_from ((p, seen), out) [] = if is_zero p.need then out else out ++ replacement
lossy_from ((p, seen), out) (b ∷ bs) =
    lossy_from (step (p, seen) out (b ∷ []) (next_byte p p.need b)) bs

unfoldable pub from_utf8_lossy : Bytes → Bytes
from_utf8_lossy bs = lossy_from ((start, []), []) bs
