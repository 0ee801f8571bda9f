-- ===== src/Sort/Slices.antt =====
-- `sort.Slice` by an order under which different values may be equal: insertion sort is one of the
-- results that it may have.
use mathlib.Core.List.{Permᴰ}
use mathlib.Core.List.Permᴰ
use stream_flow.Prelude.{◌≡◌, refl, Bool, true, false, List, [], ◌∷◌, arith, Bool-cases, inl, inr}
use stream_flow.Sort.{place, sort, AllNotLess, IsSorted}

pub record WeakOrder {ℓ} {A : Type ℓ} (less : A → A → Bool) : Type ℓ where
  pub asymmetric : (a b : A) → less a b ≡ true → less b a ≡ false
  pub not_less : (a b c : A) → less b a ≡ false → less c b ≡ false → less c a ≡ false

module _ {ℓ} {A : Type ℓ} (less : A → A → Bool) where
  place-Permᴰ : (x : A) (l : List A) → Permᴰ (place less x l) (x ∷ l)
  unfolding place
  place-Permᴰ x [] = Permᴰ.cons refl Permᴰ.nil
  place-Permᴰ x (y ∷ ys) = elim (Bool-cases (less y x)) [
    | inl lt ↦ rw lt (Permᴰ.trans (Permᴰ.cons refl (place-Permᴰ x ys)) (Permᴰ.swap refl refl))
    | inr ge ↦ rw ge (Permᴰ.refl (x ∷ y ∷ ys))
  ]

  pub sort-Permᴰ_self : (l : List A) → Permᴰ (sort less l) l
  unfolding sort
  sort-Permᴰ_self [] = Permᴰ.nil
  sort-Permᴰ_self (x ∷ xs) =
      Permᴰ.trans (place-Permᴰ x (sort less xs)) (Permᴰ.cons refl (sort-Permᴰ_self xs))

module _ {ℓ} {A : Type ℓ} {less : A → A → Bool} (o : WeakOrder less) where
  AllNotLess-below :
      (x y : A) (l : List A) → less y x ≡ false → AllNotLess less y l → AllNotLess less x l
  AllNotLess-below x y [] h p = tt
  AllNotLess-below x y (z ∷ zs) h p = (o.not_less x y z h p.0, AllNotLess-below x y zs h p.1)

  AllNotLess-place_weak :
      (y x : A) (l : List A)
      → less x y ≡ false
      → AllNotLess less y l
      → AllNotLess less y (place less x l)
  unfolding place
  AllNotLess-place_weak y x [] h p = (h, tt)
  AllNotLess-place_weak y x (z ∷ zs) h p = ground (arith, AllNotLess-place_weak y x zs h p.1)

  place-IsSorted_weak : (x : A) (l : List A) → IsSorted less l → IsSorted less (place less x l)
  unfolding place
  place-IsSorted_weak x [] s = (tt, tt)
  place-IsSorted_weak x (y ∷ ys) s = elim (Bool-cases (less y x)) [
    | inl lt ↦
        rw lt (AllNotLess-place_weak y x ys (o.asymmetric y x lt) s.0, place-IsSorted_weak x ys s.1)
    | inr ge ↦ rw ge ((ge, AllNotLess-below x y ys ge s.0), s)
  ]

  pub sort-IsSorted_weak : (l : List A) → IsSorted less (sort less l)
  unfolding sort
  sort-IsSorted_weak [] = tt
  sort-IsSorted_weak (x ∷ xs) = place-IsSorted_weak x (sort less xs) (sort-IsSorted_weak xs)
