-- ===== src/Sort.antt =====
-- The sort package on what the code sorts: insertion sort by the `less` that the code gives.
pub mod Laws
pub mod Slices
use stream_flow.Prelude.{
  ◌≡◌, Bool, true, false, List, [], ◌∷◌, ◌++◌, Bytes, ltb, ◌==◌, if◌then◌else◌,
}

-- A strict order that tells all values apart.
pub record Order {ℓ} {A : Type ℓ} (less : A → A → Bool) : Type ℓ where
  pub asymmetric : (a b : A) → less a b ≡ true → less b a ≡ false
  pub transitive : (a b c : A) → less a b ≡ true → less b c ≡ true → less a c ≡ true
  pub connected : (a b : A) → less a b ≡ false → less b a ≡ false → a ≡ b

module _ {ℓ} {A : Type ℓ} (less : A → A → Bool) where
  unfoldable pub place : A → List A → List A
  place x [] = x ∷ []
  place x (y ∷ ys) = if less y x then y ∷ place x ys else x ∷ y ∷ ys

  unfoldable pub sort : List A → List A
  unfolding place
  sort [] = []
  sort (x ∷ xs) = place x (sort xs)

  -- No element stands before a smaller one.
  abbrev pub AllNotLess : A → List A → Type 0
  AllNotLess x [] = Unit {0}
  AllNotLess x (y ∷ ys) = (less y x ≡ false) × AllNotLess x ys

  abbrev pub IsSorted : List A → Type 0
  IsSorted [] = Unit {0}
  IsSorted (x ∷ xs) = AllNotLess x xs × IsSorted xs

-- `<` on Go strings.
unfoldable pub less_bytes : Bytes → Bytes → Bool
less_bytes a [] = false
less_bytes [] (b ∷ bs) = true
less_bytes (a ∷ as') (b ∷ bs) =
    if ltb a b then true else if a == b then less_bytes as' bs else false
