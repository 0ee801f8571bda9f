-- ===== src/Groups.antt =====
-- broker/consumer_group.go: members of consumer groups and the partitions assigned to them. A map of
-- maps holds no nil map, so that a missing key is the only empty entry.
pub mod Rebalance
use stream_flow.Prelude.{
  ℕ, zero, suc, ◌+◌, ◌%◌, Bool, true, false, Option, none, some, List, [], ◌∷◌, ◌++◌, Bytes, length,
  get_elem?, bytes_key, if◌then◌else◌,
}
use stream_flow.Dict.{Dict, lookup, insert, delete, keys}
use stream_flow.Int64.{is_neg}
use stream_flow.Sort.{sort, less_bytes}

abbrev pub Members : Type 0
Members = Dict Bytes (Unit {0})

abbrev pub Assignments : Type 0
Assignments = Dict Bytes (List ℕ)

pub record Coordinator : Type 0 where
  pub members : Dict Bytes Members
  pub assignments : Dict Bytes Assignments

abbrev pub or_empty {ℓ} : {A : Type ℓ} → Option (List A) → List A
or_empty none = []
or_empty (some m) = m

unfoldable pub join : Bytes → Bytes → Coordinator → Coordinator
join group member c = record c {
  members = insert group (insert member tt (or_empty (lookup group c.members))) c.members;
}

leave_assignments : Bytes → Bytes → Coordinator → Coordinator
leave_assignments group member c = elim (lookup group c.assignments) [
  | none ↦ c
  | some a ↦ record c { assignments = insert group (delete member a) c.assignments }
]

unfoldable pub leave : Bytes → Bytes → Coordinator → Coordinator
unfolding leave_assignments
leave group member c = elim (lookup group c.members) [
  | none ↦ c
  | some ms ↦
      leave_assignments group member
        (record c { members = insert group (delete member ms) c.members })
]

-- `c.assignments[group][m]`, nil if there is none.
abbrev pub parts : Bytes → Assignments → List ℕ
parts m a = or_empty (lookup m a)

-- `for _, m := range members { assignments[m] = nil }`
unfoldable pub reset : List Bytes → Assignments → Assignments
reset [] a = a
reset (m ∷ ms) a = reset ms (insert m [] a)

abbrev pub give : Option Bytes → ℕ → Assignments → Assignments
give none p a = a
give (some m) p a = insert m (parts m a ++ (p ∷ [])) a

-- The rounds from partition `p` on; `members[p%len(members)]` is always there.
unfoldable pub assign : List Bytes → Assignments → ℕ → ℕ → Assignments
assign ms a p zero = a
assign ms a p (suc left) = assign ms (give (get_elem? ms (p % length ms)) p a) (p + 1) left

-- A negative number of partitions makes no round.
abbrev pub rounds : ℕ → ℕ
rounds partitions = if is_neg partitions then 0 else partitions

assign_if_any : List Bytes → ℕ → Assignments → Assignments
unfolding assign
assign_if_any [] partitions a = a
assign_if_any (m ∷ ms) partitions a = assign (m ∷ ms) a 0 (rounds partitions)

unfoldable pub rebalance : Bytes → ℕ → Coordinator → Coordinator
unfolding assign_if_any reset
rebalance group partitions c =
    let ms = sort less_bytes (keys (or_empty (lookup group c.members))) in
    let a = reset ms (or_empty (lookup group c.assignments)) in
    record c { assignments = insert group (assign_if_any ms partitions a) c.assignments }

-- `Assignment` copies the group's map.
unfoldable pub assignment : Bytes → Coordinator → Assignments
assignment group c = or_empty (lookup group c.assignments)
