-- ===== src/Client/Destinations.antt =====
-- What `process_dests` of src/client.rs keeps of the destinations.
use nkn_sdk_rust.Prelude.{
  ◌≤◌, ◌≡◌, refl, ap, ◌∙◌, List, [], ◌∷◌, ◌++◌, ok, Bytes, length, Option, some, arith, All,
}
use nkn_sdk_rust.Addresses.{cut, last, init, join}
use nkn_sdk_rust.Addresses.Parsing.{join-cut}
use nkn_sdk_rust.Client.Payloads.{process_dest, processed_dests, process_dests}

init-last :
    (first : Bytes) (others : List Bytes)
    → init first others ++ (last first others ∷ []) ≡ first ∷ others
init-last first [] = refl
init-last first (x ∷ xs) = ap (◌∷◌ first) (init-last x xs)

-- A destination that ends in a hex key, which has 64 digits.
abbrev HasKey : Bytes → Type 0
HasKey dest = let (first, others) = cut dest in 64 ≤ length (last first others)

module _ (get_registrant : Bytes → Option Bytes) where
  process_dest_keeps : (dest : Bytes) → HasKey dest → process_dest get_registrant dest ≡ some dest
  unfolding process_dest
  process_dest_keeps dest h =
      let same = ap join (init-last (cut dest).0 (cut dest).1) ∙ join-cut dest in
      ground (arith, same)

  processed_dests_keep :
      (dests : List Bytes) → All HasKey dests → processed_dests get_registrant dests ≡ dests
  unfolding processed_dests
  processed_dests_keep [] h = refl
  processed_dests_keep (dest ∷ dests) h =
      rw (process_dest_keeps dest h.0) (ap (◌∷◌ dest) (processed_dests_keep dests h.1))

  -- Destinations that end in a key are sent to as they are, all of them and in order, and no name is
  -- looked up.
  process_dests_keep :
      (dests : List Bytes) → All HasKey dests → process_dests get_registrant dests ≡ ok dests
  unfolding process_dests
  process_dests_keep [] h = refl
  process_dests_keep (dest ∷ dests) h = rw (processed_dests_keep (dest ∷ dests) h) refl
