-- ===== src/Scaffold/Threads/Locks.antt =====
-- A family of threads, and a lock that one of them holds at a time.
use logos_accounts.Prelude.{
  ℕ, ◌≡◌, refl, ap, ◌∙◌, ◌≢◌, ◌⊎◌, ◌↔◌, Bool, Bool-cases, if_cases, inl, inr, true, false, Option,
  none, some, arith, ◌==◌, nat_eq, ==_iff,
}
use logos_accounts.Scaffold.Threads.{put}

-- What a step of thread `i` does to a lock and to whether the thread is inside.
pub data LockMove (i : ℕ) : Option ℕ → Bool → Option ℕ → Bool → Type 0 where
  keeps : {o : Option ℕ} {b : Bool} → LockMove i o b o b
  takes : {b : Bool} → LockMove i none b (some i) true
  drops : {o : Option ℕ} → LockMove i o true none false

-- The owner is the one that is inside.
abbrev pub Owned : {A : Type 0} → (A → Bool) → Option ℕ → (ℕ → A) → Type 0
Owned inside owner f = (j : ℕ) → (inside (f j) ≡ true) ↔ (owner ≡ some j)

-- What holds of the new thing at `i` and of the old ones elsewhere holds of each.
pub put_cases {ℓ κ} :
    {A : Type ℓ} (P : A → Type κ) (i j : ℕ) (a : A) (f : ℕ → A)
    → (i ≡ j → P a)
    → (i ≢ j → P (f j))
    → P (put i a f j)
put_cases P i j a f same apart =
    if_cases P (i == j) (λ e. same ((==_iff i j).0 e)) λ e. apart λ h. cc ((==_iff i j).1 h, e)

module _ {A : Type 0} (inside : A → Bool) where
  put-inside :
      (i j : ℕ) (a : A) (f : ℕ → A)
      → ((i ≡ j) × (inside (put i a f j) ≡ inside a))
        ⊎ ((i ≢ j) × (inside (put i a f j) ≡ inside (f j)))
  put-inside i j a f = elim (Bool-cases (i == j)) [
    | inl same ↦ inl ((==_iff i j).0 same, (rw same refl))
    | inr apart ↦ inr ((λ e. cc ((==_iff i j).1 e, apart)), (rw apart refl))
  ]

  pub LockMove-Owned :
      {i : ℕ} {o o' : Option ℕ} {b b' : Bool} (a : A) (f : ℕ → A)
      → LockMove i o b o' b'
      → inside (f i) ≡ b
      → inside a ≡ b'
      → Owned inside o f
      → Owned inside o' (put i a f)
  LockMove-Owned {i} a f keeps was is own j = elim (put-inside i j a f) [
    | inl (same, e) ↦ rw (e, is, ← was, ← same) (own i)
    | inr (apart, e) ↦ rw e (own j)
  ]
  LockMove-Owned {i} a f takes was is own j = elim (put-inside i j a f) [
    | inl (same, e) ↦ (λ h. ap some same, λ h. e ∙ is)
    | inr (apart, e) ↦
        (λ h. absurd (ground (arith, e, h, own j)), λ h. absurd (ground (arith, apart, h)))
  ]
  LockMove-Owned {i} a f drops was is own j = elim (put-inside i j a f) [
    | inl (same, e) ↦ (λ h. absurd (ground (arith, h, e, is)), λ h. absurd (cc))
    | inr (apart, e) ↦
        (λ h. absurd (ground (arith, e, h, was, own i, own j, apart)), λ h. absurd (cc))
  ]
