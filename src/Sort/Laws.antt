-- ===== src/Sort/Laws.antt =====
-- Sorting gives a sorted permutation, and one that does not depend on the order of the input.
use mathlib.Core.List.{Permᴰ}
use mathlib.Core.Path.{ap₂}
use stream_flow.Int64
use stream_flow.Prelude.{
  suc, ◌≡◌, ◌⊎◌, refl, ◌∙◌, ap, Bool, true, false, List, [], ◌∷◌, Bytes, Key, arith, length,
  if◌then◌else◌, Bool-cases, inl, inr,
}
use stream_flow.Dict.{contains}
use stream_flow.Sort.{Order, place, sort, AllNotLess, IsSorted, less_bytes}

module _ {ℓ} {A : Type ℓ} (less : A → A → Bool) where
  length-place : (x : A) (l : List A) → length (place less x l) ≡ suc (length l)
  unfolding place
  length-place x [] = refl
  length-place x (y ∷ ys) = ground (arith, length-place x ys)

  pub length-sort : (l : List A) → length (sort less l) ≡ length l
  unfolding sort
  length-sort [] = refl
  length-sort (x ∷ xs) = length-place x (sort less xs) ∙ ap suc (length-sort xs)

  module _ ⦃e : Key A⦄ where
    pub contains-place :
        (a x : A) (l : List A)
        → contains a (place less x l) ≡ (if e.same x a then true else contains a l)
    unfolding place contains
    contains-place a x [] = refl
    contains-place a x (y ∷ ys) = ground (arith, contains-place a x ys)

    pub contains-sort : (a : A) (l : List A) → contains a (sort less l) ≡ contains a l
    unfolding sort contains
    contains-sort a [] = refl
    contains-sort a (x ∷ xs) = ground (arith, contains-place a x (sort less xs), contains-sort a xs)

module _ {ℓ} {A : Type ℓ} {less : A → A → Bool} (o : Order less) where
  AllNotLess-trans :
      (x y : A) (l : List A) → less x y ≡ true → AllNotLess less y l → AllNotLess less x l
  AllNotLess-trans x y [] h p = tt
  AllNotLess-trans x y (z ∷ zs) h p = (
    elim (Bool-cases (less z x)) [ inl lt ↦ cc (o.transitive z x y lt h, p.0) | inr ge ↦ ge ],
    AllNotLess-trans x y zs h p.1,
  )

  AllNotLess-place :
      (y x : A) (l : List A)
      → less x y ≡ false
      → AllNotLess less y l
      → AllNotLess less y (place less x l)
  unfolding place
  AllNotLess-place y x [] h p = (h, tt)
  AllNotLess-place y x (z ∷ zs) h p = ground (arith, AllNotLess-place y x zs h p.1)

  place-IsSorted : (x : A) (l : List A) → IsSorted less l → IsSorted less (place less x l)
  unfolding place
  place-IsSorted x [] s = (tt, tt)
  place-IsSorted x (y ∷ ys) s = elim (Bool-cases (less y x)) [
    | inl lt ↦ rw lt (AllNotLess-place y x ys (o.asymmetric y x lt) s.0, place-IsSorted x ys s.1)
    | inr ge ↦ rw ge ((ge, not_below ge (Bool-cases (less x y))), s)
  ]
    where
      not_below : less y x ≡ false → (less x y ≡ true) ⊎ (less x y ≡ false) → AllNotLess less x ys
      not_below ge (inl lt) = AllNotLess-trans x y ys lt s.0
      not_below ge (inr le) = rw (← o.connected y x ge le) s.0

  -- Sorting sorts.
  pub sort-IsSorted : (l : List A) → IsSorted less (sort less l)
  unfolding sort
  sort-IsSorted [] = tt
  sort-IsSorted (x ∷ xs) = place-IsSorted x (sort less xs) (sort-IsSorted xs)

  place_comm :
      (x y : A) (l : List A) → place less x (place less y l) ≡ place less y (place less x l)
  unfolding place
  place_comm x y [] = ground (arith, o.asymmetric x y, o.connected x y, o.asymmetric y x)
  place_comm x y (z ∷ zs) = ground (
    arith,
    o.asymmetric x y,
    o.connected x y,
    o.asymmetric y x,
    o.transitive z x y,
    o.transitive z y x,
    o.connected x z,
    o.connected y z,
    place_comm x y zs,
  )

  -- The result depends on what is in the list and not on its order, which for the keys of a Go map
  -- is open.
  pub sort-Permᴰ : {xs ys : List A} → Permᴰ xs ys → sort less xs ≡ sort less ys
  unfolding sort
  sort-Permᴰ Permᴰ.nil = refl
  sort-Permᴰ (Permᴰ.cons e p) = ap₂ (place less) e (sort-Permᴰ p)
  sort-Permᴰ (Permᴰ.swap {a = a} {b = b} {l = l} e d) =
      place_comm a b (sort less l) ∙ ap₂ (λ x y. place less x (place less y (sort less l))) d e
  sort-Permᴰ (Permᴰ.trans p q) = sort-Permᴰ p ∙ sort-Permᴰ q

-- The two orders that the code sorts by.
less_bytes-asymm : (a b : Bytes) → less_bytes a b ≡ true → less_bytes b a ≡ false
unfolding less_bytes
less_bytes-asymm [] [] h = cc
less_bytes-asymm [] (b ∷ bs) h = refl
less_bytes-asymm (a ∷ as') [] h = cc
less_bytes-asymm (a ∷ as') (b ∷ bs) h = ground (arith, less_bytes-asymm as' bs)

less_bytes_trans :
    (a b c : Bytes) → less_bytes a b ≡ true → less_bytes b c ≡ true → less_bytes a c ≡ true
unfolding less_bytes
less_bytes_trans a b [] h k = cc
less_bytes_trans [] b (c ∷ cs) h k = refl
less_bytes_trans (a ∷ as') [] (c ∷ cs) h k = cc
less_bytes_trans (a ∷ as') (b ∷ bs) (c ∷ cs) h k = ground (arith, less_bytes_trans as' bs cs)

less_bytes-connected : (a b : Bytes) → less_bytes a b ≡ false → less_bytes b a ≡ false → a ≡ b
unfolding less_bytes
less_bytes-connected [] [] h k = refl
less_bytes-connected [] (b ∷ bs) h k = cc
less_bytes-connected (a ∷ as') [] h k = cc
less_bytes-connected (a ∷ as') (b ∷ bs) h k = ground (arith, less_bytes-connected as' bs)

pub less_bytes-Order : Order less_bytes
less_bytes-Order = record {
  asymmetric = less_bytes-asymm;
  transitive = less_bytes_trans;
  connected = less_bytes-connected;
}

pub less_int64-Order : Order Int64.less
less_int64-Order = record {
  asymmetric = λ a b h. ground arith;
  transitive = λ a b c h k. ground arith;
  connected = λ a b h k. ground arith;
}
