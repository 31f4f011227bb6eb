-- ===== src/Prelude/Lists.antt =====
-- Lists with native lengths, membership as data, and predicates on every element.
use Prim.Native.Nat.{ℕ, suc, ◌+◌}
use mathlib.Core.Path.{◌≡◌}
use mathlib.Core.Logic.{inl, inr}
use mathlib.Core.Bool.{Bool, true}
use mathlib.Core.List.{List, [], ◌∷◌, ◌++◌}
use mathlib.Core.Option.{Option, none, some}
use native.Mathlib.Omega.{arith}
use logos_accounts.Prelude.Tests.{if◌then◌else◌, Bool-cases}

module _ {ℓ} {A : Type ℓ} where
  abbrev pub length : List A → ℕ
  length [] = 0
  length (x ∷ xs) = suc (length xs)

  pub length-append : (xs ys : List A) → length (xs ++ ys) ≡ length xs + length ys
  length-append [] ys = omega arith
  length-append (x ∷ xs) ys = omega (arith, length-append xs ys)

  -- `Iterator::filter` with a Boolean closure.
  abbrev pub filter : (A → Bool) → List A → List A
  filter p [] = []
  filter p (x ∷ xs) = if p x then x ∷ filter p xs else filter p xs

  -- `Iterator::last`.
  abbrev pub get_last? : List A → Option A
  get_last? [] = none
  get_last? (x ∷ []) = some x
  get_last? (x ∷ y ∷ xs) = get_last? (y ∷ xs)

  -- A place in a list where `a` stands.
  pub data In (a : A) : List A → Type ℓ where
    here : {x : A} {xs : List A} → a ≡ x → In a (x ∷ xs)
    there : {x : A} {xs : List A} → In a xs → In a (x ∷ xs)

  abbrev pub All {κ} : (A → Type κ) → List A → Type κ
  All P [] = Unit
  All P (x ∷ xs) = P x × All P xs

module _ {ℓ} {A : Type ℓ} where
  In-cons : {a y : A} {xs ys : List A} → (In a ys → In a xs) → In a (y ∷ ys) → In a (y ∷ xs)
  In-cons f (here e) = here e
  In-cons f (there i) = there (f i)

  pub In-one : {a y : A} → In a (y ∷ []) → a ≡ y
  In-one (here e) = e
  In-one (there i) = elim i [ ]

module _ {ℓ} {A : Type ℓ} (p : A → Bool) where
  pub filter-In : {a : A} (xs : List A) → In a (filter p xs) → In a xs
  filter-In [] i = i
  filter-In {a} (y ∷ xs) i = elim (Bool-cases (p y)) [
    | inr out ↦ there (filter-In xs (rw out at i))
    | inl kept ↦ In-cons (filter-In xs) (rw kept at i)
  ]

  pub In-filter : {a : A} (xs : List A) → p a ≡ true → In a xs → In a (filter p xs)
  In-filter {a} (y ∷ xs) h (here e) = let kept : p y ≡ true = rw e at h in rw kept (here e)
  In-filter {a} (y ∷ xs) h (there i) = elim (Bool-cases (p y)) [
    | inr out ↦ rw out (In-filter xs h i)
    | inl kept ↦ rw kept (there (In-filter xs h i))
  ]
  In-filter [] h i = elim i [ ]

module _ {ℓ} {A : Type ℓ} where
  -- The first list is the second one with elements left out.
  pub data Within : List A → List A → Type ℓ where
    nil : Within [] []
    taken : {a : A} {xs ys : List A} → Within xs ys → Within (a ∷ xs) (a ∷ ys)
    missed : {a : A} {xs ys : List A} → Within xs ys → Within xs (a ∷ ys)

  pub Within-append :
      {xs ys xs' ys' : List A} → Within xs ys → Within xs' ys' → Within (xs ++ xs') (ys ++ ys')
  Within-append nil v = v
  Within-append (taken w) v = taken (Within-append w v)
  Within-append (missed w) v = missed (Within-append w v)

  pub Within-left : {xs ys : List A} (zs : List A) → Within xs ys → Within xs (ys ++ zs)
  Within-left [] nil = nil
  Within-left (z ∷ zs) nil = missed (Within-left zs nil)
  Within-left zs (taken w) = taken (Within-left zs w)
  Within-left zs (missed w) = missed (Within-left zs w)
