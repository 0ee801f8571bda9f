-- ===== src/Dict/Laws.antt =====
-- Reads after writes, and that every write keeps the keys distinct.
use stream_flow.Prelude.{
  suc, ap, length, ◌≡◌, refl, Bool, true, false, Option, none, some, [], ◌∷◌, Key, arith,
  if◌then◌else◌,
}
use stream_flow.Dict.{Dict, lookup, insert, delete, keys, contains, IsDistinct}

abbrev pub is_present {ℓ} : {V : Type ℓ} → Option V → Bool
is_present none = false
is_present (some v) = true

module _ {ℓ} {K : Type ℓ} ⦃e : Key K⦄ where
  pub same_refl : (k : K) → e.same k k ≡ true
  same_refl k = (e.same_iff k k).1 refl

module _ {ℓ κ} {K : Type ℓ} {V : Type κ} ⦃e : Key K⦄ where
  pub lookup-insert :
      (k j : K) (v : V) (m : Dict K V)
      → lookup j (insert k v m) ≡ (if e.same k j then some v else lookup j m)
  unfolding lookup insert
  lookup-insert k j v [] = refl
  lookup-insert k j v ((i, w) ∷ m) =
      ground (arith, e.same_iff k j, e.same_iff i k, e.same_iff i j, lookup-insert k j v m)

  pub lookup-insert_self : (k : K) (v : V) (m : Dict K V) → lookup k (insert k v m) ≡ some v
  lookup-insert_self k v m = ground (arith, lookup-insert k k v m, same_refl k)

  pub insert-IsDistinct : (k : K) (v : V) (m : Dict K V) → IsDistinct m → IsDistinct (insert k v m)
  unfolding insert lookup
  insert-IsDistinct k v [] h = ground arith
  insert-IsDistinct k v ((i, w) ∷ m) h =
      ground (arith, e.same_iff i k, e.same_iff k i, insert-IsDistinct k v m, lookup-insert k i v m)

  pub lookup-delete :
      (k j : K) (m : Dict K V)
      → IsDistinct m
      → lookup j (delete k m) ≡ (if e.same k j then none else lookup j m)
  unfolding lookup delete
  lookup-delete k j [] h = ground arith
  lookup-delete k j ((i, w) ∷ m) h =
      ground (arith, e.same_iff k j, e.same_iff i k, e.same_iff i j, lookup-delete k j m)

  pub delete-IsDistinct : (k : K) (m : Dict K V) → IsDistinct m → IsDistinct (delete k m)
  unfolding delete lookup
  delete-IsDistinct k [] h = h
  delete-IsDistinct k ((i, w) ∷ m) h =
      ground (arith, e.same_iff k i, delete-IsDistinct k m, lookup-delete k i m)

  pub contains-keys : (k : K) (m : Dict K V) → contains k (keys m) ≡ is_present (lookup k m)
  unfolding contains keys lookup
  contains-keys k [] = refl
  contains-keys k ((i, w) ∷ m) = ground (arith, contains-keys k m)

pub length-keys {ℓ κ} : {K : Type ℓ} {V : Type κ} (m : Dict K V) → length (keys m) ≡ length m
unfolding keys
length-keys [] = refl
length-keys (x ∷ m) = ap suc (length-keys m)
