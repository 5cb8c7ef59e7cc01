-- ===== src/Rpc/Rotation.antt =====
-- The order in which a worker of src/rpc.rs asks the servers.
use nkn_sdk_rust.Prelude.{
  ℕ, ◌≡◌, sym, inl, inr, List, ◌++◌, Bytes, length, take, drop, IsIn, IsIn-append, IsIn-append-left,
  IsIn-append-right, take-append-drop, length-append, length-take, length-drop, arith,
}
use nkn_sdk_rust.Rpc.{rotate}

pub length-rotate : (i : ℕ) (servers : List Bytes) → length (rotate i servers) ≡ length servers
unfolding rotate
length-rotate i servers = omega (
  arith,
  length-append (drop i servers) (take i servers),
  length-drop i servers,
  length-take i servers,
)

-- Every server is asked, and nobody else.
pub rotate-IsIn :
    (i : ℕ) (servers : List Bytes) (s : Bytes) → IsIn s servers → IsIn s (rotate i servers)
unfolding rotate
rotate-IsIn i servers s h =
    let whole = rw (sym (take-append-drop i servers)) at h in
    elim (IsIn-append s (take i servers) (drop i servers) whole) [
      | inl l ↦ IsIn-append-right s (drop i servers) (take i servers) l
      | inr r ↦ IsIn-append-left s (drop i servers) (take i servers) r
    ]

pub IsIn-rotate :
    (i : ℕ) (servers : List Bytes) (s : Bytes) → IsIn s (rotate i servers) → IsIn s servers
unfolding rotate
IsIn-rotate i servers s h =
    let whole : IsIn s (take i servers ++ drop i servers) =
      elim (IsIn-append s (drop i servers) (take i servers) h) [
        | inl l ↦ IsIn-append-right s (take i servers) (drop i servers) l
        | inr r ↦ IsIn-append-left s (take i servers) (drop i servers) r
      ] in
    rw (take-append-drop i servers) at whole
