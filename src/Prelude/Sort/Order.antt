-- ===== src/Prelude/Sort/Order.antt =====
-- `sort_by` returns the same elements, in order.
use Prim.Native.Nat.{compare as compare_ℕ, Ordering}
use Prim.Native.Char.{Char, code}
use Prim.Native.String.{String, compare, then as in_order}
use Prim.Native.String.compare
use text.Mathlib.Text.{is_le}
use mathlib.Core.Path.{◌≡◌, refl}
use mathlib.Core.Logic.{◌⊎◌, inl, inr}
use mathlib.Core.Bool.{Bool, true, false}
use mathlib.Core.List.{List, [], ◌∷◌}
use native.Mathlib.Omega.{arith}
use logos_accounts.Prelude.Tests.{Bool-cases}
use logos_accounts.Prelude.Lists.{In, here, there}
use logos_accounts.Prelude.Sort.{insert_sorted, sort_by}

module _ {ℓ} {A : Type ℓ} {a b x : A} {xs : List A} where
  In-front : In b (a ∷ x ∷ xs) → (b ≡ a) ⊎ In b (x ∷ xs)
  In-front (here e) = inl e
  In-front (there i) = inr i

  In-behind :
      {ys : List A} → (In b ys → (b ≡ a) ⊎ In b xs) → In b (x ∷ ys) → (b ≡ a) ⊎ In b (x ∷ xs)
  In-behind k (here e) = inr (here e)
  In-behind k (there i) = elim (k i) [ inl e ↦ inl e | inr j ↦ inr (there j) ]

module _ {ℓ} {A : Type ℓ} (le : A → A → Bool) where
  -- Each element is in order with the next.
  abbrev pub IsSorted : List A → Type 0
  IsSorted [] = Unit {0}
  IsSorted (x ∷ []) = Unit {0}
  IsSorted (x ∷ y ∷ ys) = (le x y ≡ true) × IsSorted (y ∷ ys)

  abbrev pub IsTotal : Type ℓ
  IsTotal = (a b : A) → le a b ≡ false → le b a ≡ true

  insert_sorted-IsSorted :
      IsTotal → (a : A) (xs : List A) → IsSorted xs → IsSorted (insert_sorted le a xs)
  unfolding insert_sorted
  insert_sorted-IsSorted total a [] h = tt
  insert_sorted-IsSorted total a (x ∷ []) h = ground (arith, total a x)
  insert_sorted-IsSorted total a (x ∷ y ∷ ys) h =
      ground (arith, total a x, insert_sorted-IsSorted total a (y ∷ ys) h.1)

  pub sort_by-IsSorted : IsTotal → (xs : List A) → IsSorted (sort_by le xs)
  unfolding sort_by
  sort_by-IsSorted total [] = tt
  sort_by-IsSorted total (x ∷ xs) =
      insert_sorted-IsSorted total x (sort_by le xs) (sort_by-IsSorted total xs)

  insert_sorted-In : (a b : A) (xs : List A) → In b (insert_sorted le a xs) → (b ≡ a) ⊎ In b xs
  unfolding insert_sorted
  insert_sorted-In a b [] (here e) = inl e
  insert_sorted-In a b [] (there i) = inr i
  insert_sorted-In a b (x ∷ xs) i = elim (Bool-cases (le a x)) [
    | inl first ↦ In-front (rw first at i)
    | inr later ↦ In-behind (insert_sorted-In a b xs) (rw later at i)
  ]

  In-insert_sorted : (a b : A) (xs : List A) → (b ≡ a) ⊎ In b xs → In b (insert_sorted le a xs)
  unfolding insert_sorted
  In-insert_sorted a b [] (inl e) = here e
  In-insert_sorted a b [] (inr i) = there i
  In-insert_sorted a b (x ∷ xs) (inl e) = elim (Bool-cases (le a x)) [
    | inl first ↦ rw first (here e)
    | inr later ↦ rw later (there (In-insert_sorted a b xs (inl e)))
  ]
  In-insert_sorted a b (x ∷ xs) (inr (here e)) = elim (Bool-cases (le a x)) [
    | inl first ↦ rw first (there (here e))
    | inr later ↦ rw later (here e)
  ]
  In-insert_sorted a b (x ∷ xs) (inr (there i)) = elim (Bool-cases (le a x)) [
    | inl first ↦ rw first (there (there i))
    | inr later ↦ rw later (there (In-insert_sorted a b xs (inr i)))
  ]

  pub sort_by-In : (b : A) (xs : List A) → In b (sort_by le xs) → In b xs
  unfolding sort_by
  sort_by-In b [] i = i
  sort_by-In b (x ∷ xs) i = elim (insert_sorted-In x b (sort_by le xs) i) [
    | inl e ↦ here e
    | inr j ↦ there (sort_by-In b xs j)
  ]

  pub In-sort_by : (b : A) (xs : List A) → In b xs → In b (sort_by le xs)
  unfolding sort_by
  In-sort_by b [] i = elim i [ ]
  In-sort_by b (x ∷ xs) (here e) = In-insert_sorted x b (sort_by le xs) (inl e)
  In-sort_by b (x ∷ xs) (there i) = In-insert_sorted x b (sort_by le xs) (inr (In-sort_by b xs i))

nil_cons : (d : Char) (t : String) → compare String.[] (String.◌∷◌ d t) ≡ Ordering.lt
nil_cons d t = λ i. compare.nil-cons d t i

cons_cons :
    (c d : Char) (s t : String)
    → compare (String.◌∷◌ c s) (String.◌∷◌ d t)
      ≡ in_order (compare_ℕ (code c) (code d)) (compare s t)
cons_cons c d s t = λ i. compare.cons-cons c d s t i

-- The order of texts is total.
pub is_le_total : (s t : String) → is_le (compare s t) ≡ false → is_le (compare t s) ≡ true
is_le_total String.[] String.[] h = refl
is_le_total String.[] (String.◌∷◌ d t) h = ground (arith, nil_cons d t)
is_le_total (String.◌∷◌ c s) String.[] h = ground (arith, nil_cons c s)
is_le_total (String.◌∷◌ c s) (String.◌∷◌ d t) h =
    ground (arith, cons_cons c d s t, cons_cons d c t s, is_le_total s t)
