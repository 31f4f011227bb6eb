-- ===== src/Prelude/Dict.antt =====
-- `HashMap` as an association list with distinct keys. The crate never depends on the order in
-- which a map is walked.
use mathlib.Core.Path.{◌≡◌, refl}
use mathlib.Core.Bool.{Bool, true, false}
use mathlib.Core.List.{List, [], ◌∷◌}
use mathlib.Core.Option.{Option, none, some}
use native.Mathlib.Omega.{arith}
use logos_accounts.Prelude.Tests.{if◌then◌else◌}
use logos_accounts.Prelude.Equality.{Eq, ◌==◌}

abbrev pub Dict : Type 0 → Type 0 → Type 0
Dict K V = List (K × V)

abbrev pub keep_if : {V : Type 0} → (V → Bool) → Option V → Option V
keep_if p none = none
keep_if p (some v) = if p v then some v else none

module _ {K V : Type 0} ⦃e : Eq K⦄ where
  abbrev pub lookup : K → Dict K V → Option V
  lookup k [] = none
  lookup k ((j, v) ∷ d) = if j == k then some v else lookup k d

  abbrev pub contains_key : K → Dict K V → Bool
  contains_key k d = elim (lookup k d) [ none ↦ false | some _ ↦ true ]

  abbrev pub insert : K → V → Dict K V → Dict K V
  insert k v [] = (k, v) ∷ []
  insert k v ((j, w) ∷ d) = if j == k then (k, v) ∷ d else (j, w) ∷ insert k v d

  abbrev pub remove : K → Dict K V → Dict K V
  remove k [] = []
  remove k ((j, w) ∷ d) = if j == k then remove k d else (j, w) ∷ remove k d

  -- No key stands twice.
  abbrev pub IsDistinct : Dict K V → Type 0
  IsDistinct [] = Unit {0}
  IsDistinct ((k, v) ∷ d) = (lookup k d ≡ none) × IsDistinct d

  pub lookup-insert :
      (k j : K) (v : V) (d : Dict K V)
      → lookup j (insert k v d) ≡ (if k == j then some v else lookup j d)
  lookup-insert k j v [] = refl
  lookup-insert k j v ((i, w) ∷ d) =
      ground (arith, e.decides k j, e.decides i k, e.decides i j, lookup-insert k j v d)

  pub lookup-remove :
      (k j : K) (d : Dict K V) → lookup j (remove k d) ≡ (if k == j then none else lookup j d)
  lookup-remove k j [] = ground arith
  lookup-remove k j ((i, w) ∷ d) =
      ground (arith, e.decides k j, e.decides i k, e.decides i j, lookup-remove k j d)

  pub insert-IsDistinct : (k : K) (v : V) (d : Dict K V) → IsDistinct d → IsDistinct (insert k v d)
  insert-IsDistinct k v [] h = (refl, tt)
  insert-IsDistinct k v ((j, w) ∷ d) h =
      ground
        (arith, insert-IsDistinct k v d h.1, lookup-insert k j v d, e.decides j k, e.decides k j)

  pub remove-IsDistinct : (k : K) (d : Dict K V) → IsDistinct d → IsDistinct (remove k d)
  remove-IsDistinct k [] h = tt
  remove-IsDistinct k ((j, w) ∷ d) h =
      ground (arith, remove-IsDistinct k d h.1, lookup-remove k j d, e.decides j k)

  -- `HashMap::retain` by a test on the value.
  abbrev pub retain : (V → Bool) → Dict K V → Dict K V
  retain p [] = []
  retain p ((k, v) ∷ d) = if p v then (k, v) ∷ retain p d else retain p d

  pub retain-none :
      (p : V → Bool) (k : K) (d : Dict K V) → lookup k d ≡ none → lookup k (retain p d) ≡ none
  retain-none p k [] h = refl
  retain-none p k ((j, v) ∷ d) h = ground (arith, retain-none p k d)

  pub lookup-retain :
      (p : V → Bool) (k : K) (d : Dict K V)
      → IsDistinct d
      → lookup k (retain p d) ≡ keep_if p (lookup k d)
  lookup-retain p k [] h = refl
  lookup-retain p k ((j, v) ∷ d) h =
      ground (arith, lookup-retain p k d h.1, retain-none p j d h.0, e.decides j k)

  pub retain-IsDistinct : (p : V → Bool) (d : Dict K V) → IsDistinct d → IsDistinct (retain p d)
  retain-IsDistinct p [] h = tt
  retain-IsDistinct p ((k, v) ∷ d) h =
      ground (arith, retain-IsDistinct p d h.1, retain-none p k d h.0)
