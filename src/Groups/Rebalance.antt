-- ===== src/Groups/Rebalance.antt =====
-- Rebalancing deals the partitions out to the members in turn.
use stream_flow.Prelude.{
  ℕ, zero, suc, ◌+◌, ◌%◌, ◌<◌, ◌≡◌, refl, sym, ap, ◌∙◌, Bool, true, false, Option, none, some, List,
  [], ◌∷◌, ◌++◌, Bytes, length, get_elem?, bytes_key, arith, if◌then◌else◌, same_bytes,
  same_bytes_iff, Bool-cases, inl, inr, ltb, leb, ◌==◌, ==_iff, ◌&&◌, subst, number_key,
}
use native.Mathlib.Nat.{mod-lt}
use mathlib.Core.List.{append_assoc, append-nil}
use stream_flow.Dict.{lookup, insert, keys, contains}
use stream_flow.Dict.Laws.{lookup-insert, lookup-insert_self, same_refl, length-keys}
use stream_flow.Sort.{sort, less_bytes}
use stream_flow.Sort.Laws.{contains-sort, length-sort}
use stream_flow.Groups.{
  Coordinator, Assignments, or_empty, parts, reset, give, assign, assign_if_any, rounds, rebalance,
  assignment,
}

abbrev pub is_owner : Bytes → Option Bytes → Bool
is_owner m none = false
is_owner m (some o) = same_bytes o m

-- The partitions from `p` on, `n` of them, whose number modulo the members is the place of `m`.
unfoldable pub owned : Bytes → List Bytes → ℕ → ℕ → List ℕ
owned m ms p zero = []
owned m ms p (suc n) =
    let rest = owned m ms (p + 1) n in
    if is_owner m (get_elem? ms (p % length ms)) then p ∷ rest else rest

parts-give :
    (m : Bytes) (o : Option Bytes) (p : ℕ) (a : Assignments)
    → parts m (give o p a) ≡ (if is_owner m o then parts m a ++ (p ∷ []) else parts m a)
parts-give m none p a = refl
parts-give m (some o) p a =
    ground (arith, lookup-insert o m (parts o a ++ (p ∷ [])) a, same_bytes_iff o m)

parts-assign :
    (m : Bytes) (ms : List Bytes) (a : Assignments) (p n : ℕ)
    → parts m (assign ms a p n) ≡ parts m a ++ owned m ms p n
unfolding assign owned
parts-assign m ms a p zero = sym (append-nil (parts m a))
parts-assign m ms a p (suc n) =
    let o = get_elem? ms (p % length ms) in
    parts-assign m ms (give o p a) (p + 1) n
    ∙ ap (λ l. l ++ owned m ms (p + 1) n) (parts-give m o p a)
    ∙ regroup (is_owner m o)
  where
    regroup :
        (mine : Bool)
        → (if mine then parts m a ++ (p ∷ []) else parts m a) ++ owned m ms (p + 1) n
          ≡ parts m a ++ (if mine then p ∷ owned m ms (p + 1) n else owned m ms (p + 1) n)
    regroup true = append_assoc (parts m a) (p ∷ []) (owned m ms (p + 1) n)
    regroup false = refl

parts-reset :
    (m : Bytes) (ms : List Bytes) (a : Assignments)
    → parts m (reset ms a) ≡ (if contains m ms then [] else parts m a)
unfolding reset contains
parts-reset m [] a = refl
parts-reset m (x ∷ ms) a = ground (arith, parts-reset m ms (insert x [] a), lookup-insert x m [] a)

-- The members of a group in the order in which they are served.
abbrev pub served : Bytes → Coordinator → List Bytes
served group c = sort less_bytes (keys (or_empty (lookup group c.members)))

assign_if_any-parts :
    (m : Bytes) (ms : List Bytes) (partitions : ℕ) (a : Assignments)
    → contains m ms ≡ true
    → parts m (assign_if_any ms partitions a) ≡ parts m a ++ owned m ms 0 (rounds partitions)
unfolding assign_if_any contains
assign_if_any-parts m [] partitions a h = cc
assign_if_any-parts m (x ∷ ms) partitions a h = parts-assign m (x ∷ ms) a 0 (rounds partitions)

-- After rebalancing, the assignment of a member of the group is the ascending list of the
-- partitions whose number modulo the number of members is the place of the member among the sorted
-- members.
pub rebalance-owned :
    (group m : Bytes) (partitions : ℕ) (c : Coordinator)
    → contains m (keys (or_empty (lookup group c.members))) ≡ true
    → parts m (assignment group (rebalance group partitions c))
      ≡ owned m (served group c) 0 (rounds partitions)
unfolding rebalance assignment
rebalance-owned group m partitions c h =
    let ms = served group c in
    let a = or_empty (lookup group c.assignments) in
    let member : contains m ms ≡ true =
      contains-sort less_bytes m (keys (or_empty (lookup group c.members))) ∙ h in
    let cleared : parts m (reset ms a) ≡ [] =
      parts-reset m ms a ∙ ap (λ b. if b then [] else parts m a) member in
    ap (λ o. parts m (or_empty o))
      (lookup-insert_self group (assign_if_any ms partitions (reset ms a)) c.assignments)
    ∙ assign_if_any-parts m ms partitions (reset ms a) member
    ∙ ap (λ l. l ++ owned m ms 0 (rounds partitions)) cleared

contains-owned :
    (q : ℕ) (m : Bytes) (ms : List Bytes) (p n : ℕ)
    → contains q (owned m ms p n)
      ≡ ((leb p q && ltb q (p + n)) && is_owner m (get_elem? ms (q % length ms)))
unfolding contains owned
contains-owned q m ms p zero = ground arith
contains-owned q m ms p (suc n) = elim (Bool-cases (p == q)) [
  | inl here ↦
      let e : p ≡ q = (==_iff p q).0 here in
      subst
        (λ k.
          contains k (owned m ms p (suc n))
          ≡ ((leb p k && ltb k (p + suc n)) && is_owner m (get_elem? ms (k % length ms))))
        e (ground (arith, contains-owned p m ms (p + 1) n))
  | inr other ↦ ground (arith, contains-owned q m ms (p + 1) n)
]

contains-get_elem? :
    (ms : List Bytes) (i : ℕ)
    → i < length ms
    → (m : Bytes) × (get_elem? ms i ≡ some m) × (contains m ms ≡ true)
unfolding contains
contains-get_elem? [] i h = absurd (omega arith)
contains-get_elem? (x ∷ ms) zero h = (x, refl, rw (same_refl x))
contains-get_elem? (x ∷ ms) (suc i) h =
    let (m, at, there) = contains-get_elem? ms i (omega arith) in (m, at, ground arith)

-- After rebalancing a group that has members, each partition in range is assigned to one member of
-- the group and to no other member.
pub rebalance-covers :
    (group : Bytes) (partitions p : ℕ) (c : Coordinator)
    → 0 < length (or_empty (lookup group c.members))
    → p < rounds partitions
    → (m : Bytes) × (contains m (keys (or_empty (lookup group c.members))) ≡ true)
      × ((m' : Bytes)
          → contains m' (keys (or_empty (lookup group c.members))) ≡ true
          → contains p (parts m' (assignment group (rebalance group partitions c)))
            ≡ same_bytes m m')
rebalance-covers group partitions p c some_member h =
    let ms = served group c in
    let all = keys (or_empty (lookup group c.members)) in
    let n : 0 < length ms =
      omega (arith, length-sort less_bytes all, length-keys (or_empty (lookup group c.members))) in
    let (m, at, there) = contains-get_elem? ms (p % length ms) (grind (arith, mod-lt)) in
    (
      m,
      sym (contains-sort less_bytes m all) ∙ there,
      (λ m' member'.
          ap (contains p) (rebalance-owned group m' partitions c member')
          ∙ contains-owned p m' ms 0 (rounds partitions)
          ∙ ground (arith, at)),
    )
