-- ===== src/Schema/Advanced/Versions.antt =====
-- The versions of a name are numbered upwards and never get shorter.
use stream_flow.Prelude.{
  ℕ, ◌+◌, ◌^◌, ◌≡◌, ◌<◌, ◌≤◌, ◌⊎◌, inl, inr, refl, sym, ap, subst, true, ◌||◌, Option, none, some,
  List, [], ◌∷◌, ◌++◌, Bytes, All, All-append, length, get_last?, bytes_key, same_bytes, Bool-cases,
  Option-cases, arith, if◌then◌else◌,
}
use stream_flow.Prelude.Action.{ok, err}
use stream_flow.Dict.{lookup, insert}
use stream_flow.Dict.Laws.{lookup-insert}
use stream_flow.Int64.{add}
use stream_flow.Schema.Advanced.{
  SchemaVersion, AdvancedRegistry, Error, register, latest, versions_of, new_version, is_compatible,
  is_supported, is_empty,
}

-- The id goes up and the content does not get shorter.
abbrev pub Follows : SchemaVersion → SchemaVersion → Type 0
Follows u v = (u.id < v.id) × (length u.content ≤ length v.content)

abbrev pub IsHistory : List SchemaVersion → Type 0
IsHistory [] = Unit {0}
IsHistory (u ∷ []) = Unit {0}
IsHistory (u ∷ v ∷ vs) = Follows u v × IsHistory (v ∷ vs)

abbrev pub IsOlder : ℕ → SchemaVersion → Type 0
IsOlder next v = v.id < next

pub record IsValid (r : AdvancedRegistry) : Type 0 where
  pub history :
      (name : Bytes) (vs : List SchemaVersion) → lookup name r.versions ≡ some vs → IsHistory vs
  pub older :
      (name : Bytes) (vs : List SchemaVersion)
      → lookup name r.versions ≡ some vs
      → All (IsOlder r.next_id) vs

abbrev CanFollow : Option SchemaVersion → SchemaVersion → Type 0
CanFollow none v = Unit {0}
CanFollow (some u) v = Follows u v

IsHistory-append :
    (vs : List SchemaVersion) (v : SchemaVersion)
    → IsHistory vs
    → CanFollow (get_last? vs) v
    → IsHistory (vs ++ (v ∷ []))
IsHistory-append [] v h f = tt
IsHistory-append (u ∷ []) v h f = (f, tt)
IsHistory-append (u ∷ w ∷ ws) v h f = (h.0, IsHistory-append (w ∷ ws) v h.1 f)

get_last?-append :
    (vs : List SchemaVersion) (v : SchemaVersion) → get_last? (vs ++ (v ∷ [])) ≡ some v
get_last?-append [] v = refl
get_last?-append (u ∷ []) v = refl
get_last?-append (u ∷ w ∷ ws) v = get_last?-append (w ∷ ws) v

can_follow :
    (next : ℕ) (vs : List SchemaVersion) (v : SchemaVersion)
    → All (IsOlder next) vs
    → v.id ≡ next
    → is_compatible (get_last? vs) v.content ≡ true
    → CanFollow (get_last? vs) v
can_follow next [] v o e c = tt
can_follow next (u ∷ []) v o e c = (omega (arith, o.0, e), ground arith)
can_follow next (u ∷ w ∷ ws) v o e c = can_follow next (w ∷ ws) v o.1 e c

IsOlder-weaken :
    (m n : ℕ) (vs : List SchemaVersion) → m ≤ n → All (IsOlder m) vs → All (IsOlder n) vs
IsOlder-weaken m n [] l o = tt
IsOlder-weaken m n (v ∷ vs) l o = (omega (arith, o.0), IsOlder-weaken m n vs l o.1)

module _ (name format content : Bytes) (r : AdvancedRegistry) where
  abbrev vs : List SchemaVersion
  vs = versions_of (lookup name r.versions)

  abbrev v : SchemaVersion
  v = new_version r name format content

  abbrev registered : AdvancedRegistry
  registered = record {
    next_id = add r.next_id 1;
    versions = insert name (vs ++ (v ∷ [])) r.versions;
  }

  -- Registering changes nothing, or it adds a version that may follow.
  register-cases :
      ((e : Error) × (register name format content r ≡ (r, err e)))
      ⊎ ((register name format content r ≡ (registered, ok v))
          × (is_compatible (get_last? vs) content ≡ true))
  unfolding register
  register-cases = elim (Bool-cases (is_empty name || is_empty content)) [
    | inl missing ↦ inl (Error.required, rw (missing, register) refl)
    | inr given ↦ elim (Bool-cases (is_supported format)) [
      | inr other ↦ inl (Error.unsupported, rw (given, other, register) refl)
      | inl known ↦ elim (Bool-cases (is_compatible (get_last? vs) content)) [
        | inr no' ↦ inl (Error.incompatible, rw (given, known, no', register) refl)
        | inl yes' ↦ inr (rw (given, known, yes', register) refl, yes')
      ]
    ]
  ]

  module _ (h : IsValid r) (fits : r.next_id + 1 < 2 ^ 63)
      (compatible : is_compatible (get_last? vs) content ≡ true) where
    next_fits : add r.next_id 1 ≡ r.next_id + 1
    next_fits = omega arith

    known : (IsHistory vs) × All (IsOlder r.next_id) vs
    known = elim (Option-cases (lookup name r.versions)) [
      | inl missing ↦ rw missing (tt, tt)
      | inr (ws, found) ↦ rw found (h.history name ws found, h.older name ws found)
    ]

    added-IsHistory : IsHistory (vs ++ (v ∷ []))
    added-IsHistory =
        IsHistory-append vs v known.0 (can_follow r.next_id vs v known.1 refl compatible)

    added-IsOlder : All (IsOlder (add r.next_id 1)) (vs ++ (v ∷ []))
    added-IsOlder =
        All-append (IsOlder (add r.next_id 1)) vs (v ∷ [])
          (IsOlder-weaken r.next_id (add r.next_id 1) vs (omega (arith, next_fits)) known.1)
          (omega (arith, next_fits), tt)

    -- The versions of a name after the call: the new list, or those from before.
    found_after :
        (other : Bytes) (ws : List SchemaVersion)
        → lookup other registered.versions ≡ some ws
        → (vs ++ (v ∷ []) ≡ ws) ⊎ (lookup other r.versions ≡ some ws)
    found_after other ws e = ground (arith, lookup-insert name other (vs ++ (v ∷ [])) r.versions)

    registered-IsValid : IsValid registered
    registered-IsValid = record {
      history = λ other ws e. elim (found_after other ws e) [
        | inl same ↦ subst IsHistory same added-IsHistory
        | inr before ↦ h.history other ws before
      ];
      older = λ other ws e. elim (found_after other ws e) [
        | inl same ↦ subst (All (IsOlder (add r.next_id 1))) same added-IsOlder
        | inr before ↦
            IsOlder-weaken r.next_id (add r.next_id 1) ws (omega (arith, next_fits))
              (h.older other ws before)
      ];
    }

  -- Registering a schema, while the next id plus one is below 2 ^ 63, keeps a registry valid: the
  -- versions of each name have rising ids below the next one, and none has shorter content than
  -- the one before.
  pub register-IsValid :
      IsValid r → r.next_id + 1 < 2 ^ 63 → IsValid (register name format content r).0
  register-IsValid h fits = elim register-cases [
    | inl (e, same) ↦ subst (λ q. IsValid q.0) (sym same) h
    | inr (same, compatible) ↦
        subst (λ q. IsValid q.0) (sym same) (registered-IsValid h fits compatible)
  ]

  -- After a schema was registered, the latest version of its name is the one that was returned,
  -- and that of any other name is as before.
  pub latest-register :
      (other : Bytes) (sv : SchemaVersion)
      → (register name format content r).1 ≡ ok sv
      → latest other (register name format content r).0
        ≡ (if same_bytes name other then some sv else latest other r)
  unfolding latest
  latest-register other sv e = elim register-cases [
    | inl (f, same) ↦ cc (ap (λ q. q.1) same)
    | inr (same, compatible) ↦ rw same (
        ground (
          arith,
          ap (λ q. q.1) same,
          lookup-insert name other (vs ++ (v ∷ [])) r.versions,
          get_last?-append vs v,
        ))
  ]
