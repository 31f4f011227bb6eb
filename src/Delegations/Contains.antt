-- ===== src/Delegations/Contains.antt =====
-- A text contains its own beginning, so that the lock of a delegation is recognised as one.
use Prim.Native.Char.{Char, code as char_code}
use Prim.Native.String.{String, ◌++◌, begins, find}
use Prim.Native.String.append
use Prim.Native.String.find as find_clauses
use text.Mathlib.TextLemmas.{append_assoc}
use text.Mathlib.TextPositions.{compare_self}
use logos_accounts.Prelude.{ℕ, ◌≡◌, refl, ◌∙◌, true, arith}
use logos_accounts.Externals.{Externals, Key}
use logos_accounts.Config.{delegated_branch_lock_script, delegated_lock_code}
use logos_accounts.Delegations.{contains, is_delegated}

pub cons_append : (c : Char) (p q : String) → (String.◌∷◌ c p) ++ q ≡ String.◌∷◌ c (p ++ q)
cons_append c p q = λ i. append.cons c p q i

pub nil_append : (q : String) → String.[] ++ q ≡ q
nil_append q = λ i. append.nil q i

find_cons :
    (c : Char) (s t : String) → (n : ℕ) × (find (String.◌∷◌ c s) t ≡ begins (String.◌∷◌ c s) t 0 n)
find_cons c s t = (_, λ i. find_clauses.cons c s t i)

begins-append : (p q : String) (y n : ℕ) → begins (p ++ q) p y n ≡ y
begins-append String.[] q y n = refl
begins-append (String.◌∷◌ c p) q y n =
    rw (cons_append c p q, compare_self (char_code c)) (begins-append p q y n)

pub find-append : (p q : String) → find (p ++ q) p ≡ 0
find-append String.[] String.[] = λ i. find_clauses.nil String.[] i
find-append String.[] (String.◌∷◌ c q) =
    rw (nil_append (String.◌∷◌ c q)) (find_cons c q String.[]).1
find-append (String.◌∷◌ c p) q = rw (cons_append c p q) (
    (find_cons c (p ++ q) (String.◌∷◌ c p)).1
    ∙ (rw (compare_self (char_code c)) (begins-append p q 0 _)))

pub contains-append : (p q : String) → contains (p ++ q) p ≡ true
contains-append p q = unfold contains in ground (arith, find-append p q)

module _ ⦃x : Externals⦄ where
  open x use {as_str}

  -- The lock script that a delegation of a branch writes is one that the listing counts as a
  -- delegation.
  pub is_delegated-delegated_branch_lock_script :
      (branch : Key) → is_delegated (delegated_branch_lock_script branch) ≡ true
  unfolding is_delegated delegated_branch_lock_script delegated_lock_code
  is_delegated-delegated_branch_lock_script branch =
      let opening : String = "check_signature(\"" in
      let checked : String = "pubkey\"" in
      let rest : String = ", \"/entry/\")" in
      let split : opening ++ (as_str branch ++ (checked ++ rest))
          ≡ (opening ++ (as_str branch ++ checked)) ++ rest =
        rw
          (
            append_assoc opening (as_str branch ++ checked) rest,
            append_assoc (as_str branch) checked rest,
          )
          refl in
      rw (split, contains-append (opening ++ (as_str branch ++ checked)) rest) refl
