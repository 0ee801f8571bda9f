-- ===== src/Dict/Cases.antt =====
-- What a key that is found in a changed map was before.
use stream_flow.Prelude.{◌≡◌, ◌≢◌, ◌⊎◌, ap, ◌∷◌, none, some, Key, arith}
use stream_flow.Dict.{Dict, lookup, insert, delete, IsDistinct}
use stream_flow.Dict.Laws.{lookup-insert, lookup-delete}

module _ {ℓ κ} {K : Type ℓ} {V : Type κ} ⦃e : Key K⦄ where
  pub lookup-insert_other :
      (k j : K) (v : V) (m : Dict K V) → k ≢ j → lookup j (insert k v m) ≡ lookup j m
  lookup-insert_other k j v m h = ground (arith, lookup-insert k j v m, e.same_iff k j, h)

  pub lookup-insert_cases :
      (k j : K) (v x : V) (m : Dict K V)
      → lookup j (insert k v m) ≡ some x
      → ((k ≡ j) × (v ≡ x)) ⊎ ((k ≢ j) × (lookup j m ≡ some x))
  lookup-insert_cases k j v x m h = ground (arith, lookup-insert k j v m, e.same_iff k j, h)

  pub lookup-delete_cases :
      (k j : K) (x : V) (m : Dict K V)
      → IsDistinct m
      → lookup j (delete k m) ≡ some x
      → (k ≢ j) × (lookup j m ≡ some x)
  lookup-delete_cases k j x m d h = ground (arith, lookup-delete k j m d, e.same_iff k j, h)

  pub lookup-first : (k : K) (v : V) (m : Dict K V) → lookup k ((k, v) ∷ m) ≡ some v
  unfolding lookup
  lookup-first k v m = ground (arith, e.same_iff k k)

  -- A later entry is one of the whole map, and of another key.
  pub lookup-later :
      (k : K) (v : V) (m : Dict K V)
      → lookup k m ≡ none
      → (j : K) (x : V) → lookup j m ≡ some x
      → (k ≢ j) × (lookup j ((k, v) ∷ m) ≡ some x)
  unfolding lookup
  lookup-later k v m first j x h =
      let other : k ≢ j = λ same. ground (arith, first, ap (λ (y : K). lookup y m) same, h) in
      (other, ground (arith, e.same_iff k j, other, h))
