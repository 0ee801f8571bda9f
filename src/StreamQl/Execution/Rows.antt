-- ===== src/StreamQl/Execution/Rows.antt =====
-- A plan without aggregates filters the records and keeps the fields that it names.
use stream_flow.Prelude.{
  ascii, sym, ◌∙◌, ◌||◌, subst, ℕ, ◌≡◌, ◌⊎◌, inl, inr, refl, ap, Bool, true, false, Option, none,
  some, List, [], ◌∷◌, Bytes, map, filter, bytes_key, arith, same_bytes, same_bytes_iff, Bool-cases,
  Option-cases, if◌then◌else◌,
}
use stream_flow.Dict.{lookup, contains}
use stream_flow.Dict.Laws.{lookup-insert}
use stream_flow.Text.{trim_left, trim_right, trim_space, is_blank}
use stream_flow.Processor.Values.{Floats, Value, Record, Stream, Printer}
use stream_flow.Processor.Operators.{map_operator, filter_operator, run}
use stream_flow.Processor.Aggregates.{Event}
use stream_flow.StreamQl.Queries.{Query, Plan, Patterns, planify}
use stream_flow.StreamQl.Predicates.{compile_predicate}
use stream_flow.StreamQl.Predicates.Conditions.{
  Condition, IsPlain, condition_text, meets, compile_predicate-meets, is_blank-condition_text,
}
use stream_flow.StreamQl.Execution.Names.{AllNames, no_aggregates}
use stream_flow.StreamQl.Execution.{
  is_star, copy_field, project_loop, project, last_part, build_operators, process, run_plan,
  projects,
}

abbrev or_else {ℓ} : {A : Type ℓ} → Option A → Option A → Option A
or_else none b = b
or_else (some a) b = some a

module _ (w : Floats) where
  map_operator-map :
      (f : Record w → Record w) (rs : Stream w) → map_operator w (λ r. some (f r)) rs ≡ map f rs
  unfolding map_operator
  map_operator-map f [] = refl
  map_operator-map f (r ∷ rs) = ap (λ l. f r ∷ l) (map_operator-map f rs)

  filter_operator-filter :
      (p : Record w → Bool) (rs : Stream w) → filter_operator w p rs ≡ filter p rs
  unfolding filter_operator
  filter_operator-filter p [] = refl
  filter_operator-filter p (r ∷ rs) = ground (arith, filter_operator-filter p rs)

  lookup-copy_field :
      (g f : Bytes) (v : Option (Value w)) (out : Record w)
      → lookup f (copy_field w g v out)
        ≡ (if same_bytes g f then or_else v (lookup f out) else lookup f out)
  lookup-copy_field g f none out = ground arith
  lookup-copy_field g f (some v) out = lookup-insert g f v out

  lookup-same : (g f : Bytes) (r : Record w) → same_bytes g f ≡ true → lookup g r ≡ lookup f r
  lookup-same g f r h = ap (λ (x : Bytes). lookup x r) ((same_bytes_iff g f).0 h)

  -- The field of a projected record, behind what was copied before.
  lookup-project_loop :
      (f : Bytes) (fs : List Bytes) (r out : Record w)
      → lookup f (project_loop w fs r out)
        ≡ (if contains f fs then or_else (lookup f r) (lookup f out) else lookup f out)
  unfolding project_loop contains
  lookup-project_loop f [] r out = refl
  lookup-project_loop f (g ∷ fs) r out = ground (
    arith,
    lookup-project_loop f fs r (copy_field w g (lookup g r) out),
    lookup-copy_field g f (lookup g r) out,
    Option-cases (lookup f r),
    lookup-same g f r,
  )

  -- A projection to a list of fields that is neither empty nor the star alone holds exactly the
  -- named fields that the record has, with their values.
  lookup-project :
      (fs : List Bytes) (f : Bytes) (r : Record w)
      → is_star fs ≡ false
      → lookup f (project w fs r) ≡ (if contains f fs then lookup f r else none)
  unfolding project lookup
  lookup-project fs f r h =
      ground (arith, h, lookup-project_loop f fs r [], Option-cases (lookup f r))

  -- The fields that a query selects: all of them for no field and for the star alone.
  abbrev pub selects : List Bytes → Bytes → Bool
  selects [] f = true
  selects (g ∷ []) f = same_bytes g (ascii "*") || same_bytes g f
  selects (g ∷ h ∷ fs) f = contains f (g ∷ h ∷ fs)

  -- Each row holds just the selected fields of its record.
  pub data AreRows (fs : List Bytes) : Stream w → Stream w → Type 0 where
    no_rows : AreRows fs [] []
    row :
        (r o : Record w) (rs out : Stream w)
        → ((f : Bytes) → lookup f o ≡ (if selects fs f then lookup f r else none))
        → AreRows fs rs out
        → AreRows fs (r ∷ rs) (o ∷ out)

  lookup-project-selects :
      (fs : List Bytes) (f : Bytes) (r : Record w)
      → lookup f (project w fs r) ≡ (if selects fs f then lookup f r else none)
  unfolding project contains
  lookup-project-selects [] f r = refl
  lookup-project-selects (g ∷ []) f r = elim (Bool-cases (same_bytes g (ascii "*"))) [
    | inl star ↦ rw star refl
    | inr named ↦ lookup-project (g ∷ []) f r named ∙ ground (arith, named)
  ]
  lookup-project-selects (g ∷ h ∷ fs) f r = lookup-project (g ∷ h ∷ fs) f r refl

  project-AreRows : (fs : List Bytes) (rs : Stream w) → AreRows fs rs (map (project w fs) rs)
  project-AreRows fs [] = no_rows
  project-AreRows fs (r ∷ rs) =
      row r (project w fs r) rs (map (project w fs) rs) (λ f. lookup-project-selects fs f r)
        (project-AreRows fs rs)

  abbrev pub text_of_condition : Option Condition → Bytes
  text_of_condition none = []
  text_of_condition (some k) = condition_text k

  abbrev pub AllPlain : Option Condition → Type 0
  AllPlain none = Unit {0}
  AllPlain (some k) = IsPlain k

  abbrev pub all_meet : Option Condition → Record w → Bool
  all_meet none r = true
  all_meet (some k) r = meets w k r

  filter-true : (rs : Stream w) → filter (λ r. true) rs ≡ rs
  filter-true [] = refl
  filter-true (r ∷ rs) = ap (λ l. r ∷ l) (filter-true rs)

  filter-same :
      (p q : Record w → Bool) (rs : Stream w)
      → ((r : Record w) → p r ≡ q r)
      → filter p rs ≡ filter q rs
  filter-same p q [] h = refl
  filter-same p q (r ∷ rs) h = ground (arith, h r, filter-same p q rs h)

  nothing : is_blank (trim_space []) ≡ true
  unfolding trim_space trim_left trim_right
  nothing = refl

  -- The records that the filter of a plan keeps.
  kept-condition :
      (condition : Bytes) (k : Option Condition) (rs : Stream w)
      → condition ≡ text_of_condition k
      → AllPlain k
      → (if is_blank (trim_space condition) then rs else filter (compile_predicate w condition) rs)
        ≡ filter (all_meet k) rs
  kept-condition condition none rs asks plain =
      let blank : is_blank (trim_space condition) ≡ true =
        ap (λ c. is_blank (trim_space c)) asks ∙ nothing in
      rw blank (sym (filter-true rs))
  kept-condition condition (some k) rs asks plain =
      let full : is_blank (trim_space condition) ≡ false =
        ap (λ c. is_blank (trim_space c)) asks ∙ is_blank-condition_text w k plain in
      rw full (
        filter-same (compile_predicate w condition) (meets w k) rs
          (λ r. ap (λ c. compile_predicate w c r) asks ∙ compile_predicate-meets w k r plain))

  last_part-projects :
      (patterns : Patterns) (p : Plan) (as' keys : List Bytes)
      → (as' ≡ []) ⊎ (keys ≡ [])
      → last_part w patterns p as' keys ≡ projects p.projections
  last_part-projects patterns p [] keys h = refl
  last_part-projects patterns p (a ∷ as') [] h = refl
  last_part-projects patterns p (a ∷ as') (k ∷ keys) h = ground arith

  module _ (print : Printer w) (schedule : ℕ → Stream w → List (Event w)) where
    run_plan-rows :
        (patterns : Patterns) (p : Plan) (rs : Stream w)
        → (p.aggregates ≡ []) ⊎ (p.group_by ≡ [])
        → run_plan w print schedule patterns p rs
          ≡ map (project w p.projections) (
              if is_blank (trim_space p.filter_text)
              then rs
              else filter (compile_predicate w p.filter_text) rs)
    unfolding run_plan build_operators process run
    run_plan-rows patterns p rs h =
        let pred : Record w → Bool = compile_predicate w p.filter_text in
        let last : last_part w patterns p p.aggregates p.group_by ≡ projects p.projections =
          last_part-projects patterns p p.aggregates p.group_by h in
        elim (Bool-cases (is_blank (trim_space p.filter_text))) [
          | inl e ↦ rw (last, e) (map_operator-map (project w p.projections) rs)
          | inr e ↦
              rw (last, e, ← filter_operator-filter pred rs)
                (map_operator-map (project w p.projections) (filter_operator w pred rs))
        ]

    -- Take a query without a group key or without an opening parenthesis in its fields, and with a
    -- condition that is empty or a field, one of the signs =, ==, > and <, and an operand, each a
    -- word without white space and the operand without quotes. Running its plan keeps, in their
    -- order, the records that have at the field an int which compares so with the operand read as
    -- an int64, or the same text as the operand where the sign is = or ==, and makes of each a row
    -- that has the fields of the query that the record has, with their values, and no other, or
    -- all fields of the record if the query names none or the star alone.
    pub run_plan-planify :
        (patterns : Patterns) (q : Query) (rs : Stream w) (k : Option Condition)
        → q.condition ≡ text_of_condition k
        → AllPlain k
        → AllNames q.select ⊎ (q.group_by ≡ [])
        → AreRows q.select
            (filter (all_meet k) rs)
            (run_plan w print schedule patterns (planify q) rs)
    unfolding planify
    run_plan-planify patterns q rs k asks plain h =
        subst (λ out. AreRows q.select (filter (all_meet k) rs) out)
          (sym (
            run_plan-rows patterns (planify q) rs (no_aggregates q h)
            ∙ ap (map (project w q.select)) (kept-condition q.condition k rs asks plain)))
          (project-AreRows q.select (filter (all_meet k) rs))
