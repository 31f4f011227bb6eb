-- ===== src/EntryUpdate/Locks.antt =====
-- The lock set that `locks_replacing_path` makes.
use logos_accounts.Prelude.{
  ◌≡◌, refl, Bool, not, none, some, List, [], ◌∷◌, ◌++◌, arith, ◌==◌, filter, ◌∙◌,
}
use mathlib.Core.List.{append-nil}
use logos_accounts.Externals.{Externals, Key, Script, Entry, key_instance}
use logos_accounts.EntryUpdate.{locks_replacing_path}

module _ {A : Type 0} (p : A → Bool) where
  filter-append : (xs ys : List A) → filter p (xs ++ ys) ≡ filter p xs ++ filter p ys
  filter-append [] ys = refl
  filter-append (x ∷ xs) ys = ground (arith, filter-append xs ys)

  filter-filter-not : (xs : List A) → filter p (filter (λ a. not (p a)) xs) ≡ []
  filter-filter-not [] = refl
  filter-filter-not (x ∷ xs) = ground (arith, filter-filter-not xs)

  filter_idem : (xs : List A) → filter p (filter p xs) ≡ filter p xs
  filter_idem [] = refl
  filter_idem (x ∷ xs) = ground (arith, filter_idem xs)

module _ ⦃x : Externals⦄ where
  open x use {script_path, locks, key_eq}

  -- The locks bound to a path, and those bound elsewhere, in order.
  abbrev pub at_path : Key → List Script → List Script
  at_path p = filter (λ s. script_path s == p)

  abbrev pub elsewhere : Key → List Script → List Script
  elsewhere p = filter (λ s. not (script_path s == p))

  at_path_one : (p : Key) (s : Script) → script_path s ≡ p → at_path p (s ∷ []) ≡ s ∷ []
  at_path_one p s e = ground (arith, key_eq.decides (script_path s) p)

  elsewhere_none : (p : Key) (s : Script) → script_path s ≡ p → elsewhere p (s ∷ []) ≡ []
  elsewhere_none p s e = ground (arith, key_eq.decides (script_path s) p)

  -- To replace the lock of a path: the new lock is the only one there, and the locks of the other
  -- paths stay, in their order.
  pub locks_replacing_path-some :
      (head : Entry) (p : Key) (s : Script)
      → script_path s ≡ p
      → (at_path p (locks_replacing_path head p (some s)) ≡ s ∷ [])
        × (elsewhere p (locks_replacing_path head p (some s)) ≡ elsewhere p (locks head))
  locks_replacing_path-some head p s e =
      let others = elsewhere p (locks head) in
      unfold locks_replacing_path in
      (
        filter-append (λ t. script_path t == p) others (s ∷ [])
            ∙ (rw (filter-filter-not (λ t. script_path t == p) (locks head)) (at_path_one p s e)),
        filter-append (λ t. not (script_path t == p)) others (s ∷ [])
            ∙ (rw (filter_idem (λ t. not (script_path t == p)) (locks head), elsewhere_none p s e)
                (append-nil others)),
      )

  -- To remove the lock of a path: none is left there, and the others stay.
  pub locks_replacing_path-none :
      (head : Entry) (p : Key)
      → (at_path p (locks_replacing_path head p none) ≡ [])
        × (elsewhere p (locks_replacing_path head p none) ≡ elsewhere p (locks head))
  locks_replacing_path-none head p =
      unfold locks_replacing_path in
      (
        filter-filter-not (λ t. script_path t == p) (locks head),
        filter_idem (λ t. not (script_path t == p)) (locks head),
      )
