-- ===== src/Tests/Groups.antt =====
-- Rebalancing a group of two members.
use stream_flow.Prelude.{◌≡◌, refl, [], ◌∷◌, Bytes, ascii, bytes_key, number_key}
use stream_flow.Dict.{lookup, keys, contains}
use stream_flow.Groups.{Coordinator, parts, assignment, rebalance, rounds}
use stream_flow.Groups.Rebalance.{owned, served, rebalance-owned}

abbrev workers : Bytes
workers = ascii "workers"

abbrev two_members : Coordinator
two_members = record {
  members = (workers, (ascii "b", tt) ∷ (ascii "a", tt) ∷ []) ∷ [];
  assignments = [];
}

rebalance-owned_example :
    parts (ascii "a") (assignment workers (rebalance workers 3 two_members))
    ≡ owned (ascii "a") (served workers two_members) 0 (rounds 3)
unfolding lookup keys contains
rebalance-owned_example = rebalance-owned workers (ascii "a") 3 two_members refl
