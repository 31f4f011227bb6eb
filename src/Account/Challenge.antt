-- ===== src/Account/Challenge.antt =====
-- The life of a challenge: committed or cancelled once, and only while it is young.
use logos_accounts.Prelude.{
  ℕ, ◌+◌, ◌≤◌, String, ◌≡◌, refl, ◌∙◌, inl, inr, none, some, Result, ok, err, arith, Option-cases,
  string_eq, ==_refl,
}
use logos_accounts.Prelude.Dict.{lookup, remove, lookup-remove, retain-none, IsDistinct}
use logos_accounts.Error.{Error, challenge_not_found}
use logos_accounts.Externals.{Externals}
use logos_accounts.Externals.Laws.{AppendLaws}
use logos_accounts.Account.{
  PendingUpdate, PlogAccount, purge_expired_challenges, is_live, challenge_ttl,
}
use logos_accounts.Account.Committing.{commit_update, commit_pending, cancel_update, append_signed}
use logos_accounts.Account.Invariant.{IsValid, purge-IsValid, remove-IsValid, lookup-purge}
use logos_accounts.Account.Commit.{
  Committed, CommitCase, head_moved, bad_signature, refused, unreadable, appended,
  commit_pending-CommitCase, commit_pending-IsValid,
}

module _ ⦃x : Externals⦄ where
  open x use {try_append, try_build_with_proof, multisig_to_bytes}

  -- The account without the challenge `id`.
  abbrev pub forget : String → PlogAccount → PlogAccount
  forget id account = record account { pending = remove id account.pending }

  module _ (now : ℕ) (id : String) (account : PlogAccount) where
    abbrev purged : PlogAccount
    purged = purge_expired_challenges now account

    -- `commit_update` fails on an unknown challenge, or goes on without the challenge.
    pub commit_update_cases :
        (P : Committed × PlogAccount → Type 0) (signature : String)
        → (lookup id purged.pending ≡ none → P (err (challenge_not_found id), forget id purged))
        → ((p : PendingUpdate)
            → lookup id purged.pending ≡ some p
            → P (commit_pending signature p (forget id purged)))
        → P (commit_update now id signature account)
    unfolding commit_update
    commit_update_cases P signature missing found = elim (Option-cases (lookup id purged.pending)) [
      | inl absent ↦ rw absent (missing absent)
      | inr (p, present) ↦ rw present (found p present)
    ]

    pub cancel_update_cases :
        (P : Result (Unit {0}) Error × PlogAccount → Type 0)
        → (lookup id purged.pending ≡ none → P (err (challenge_not_found id), forget id purged))
        → ((p : PendingUpdate) → lookup id purged.pending ≡ some p → P (ok tt, forget id purged))
        → P (cancel_update now id account)
    unfolding cancel_update
    cancel_update_cases P missing found = elim (Option-cases (lookup id purged.pending)) [
      | inl absent ↦ rw absent (missing absent)
      | inr (p, present) ↦ rw present (found p present)
    ]

  -- A commit, successful or not, takes a valid account to a valid one: each challenge id stands
  -- once, and every challenge left names the current head and was assembled on the current log.
  -- This uses that a refused append keeps the log.
  pub commit_update-IsValid :
      AppendLaws
      → (now : ℕ) (id signature : String) {account : PlogAccount} → IsValid account
      → IsValid (commit_update now id signature account).1
  commit_update-IsValid laws now id signature {account} v =
      let rest : IsValid (forget id (purge_expired_challenges now account)) =
        remove-IsValid id (purge-IsValid now v) in
      commit_update_cases now id account (λ r. IsValid r.1) signature (λ _. rest)
        λ p _. commit_pending-IsValid laws signature p rest

  pub cancel_update-IsValid :
      (now : ℕ) (id : String) {account : PlogAccount}
      → IsValid account
      → IsValid (cancel_update now id account).1
  cancel_update-IsValid now id {account} v =
      let rest : IsValid (forget id (purge_expired_challenges now account)) =
        remove-IsValid id (purge-IsValid now v) in
      cancel_update_cases now id account (λ r. IsValid r.1) (λ _. rest) λ p _. rest

  abbrev pub IsGone : String → PlogAccount → Type 0
  IsGone id account = lookup id account.pending ≡ none

  forget-IsGone : (id : String) (account : PlogAccount) → IsGone id (forget id account)
  forget-IsGone id account = ground (arith, lookup-remove id id account.pending, ==_refl id)

  CommitCase-IsGone :
      (signature : String) (p : PendingUpdate) (id : String) {account : PlogAccount}
      {r : Committed × PlogAccount}
      → CommitCase signature p account r
      → IsGone id account
      → IsGone id r.1
  CommitCase-IsGone signature p id (head_moved e moved) g = g
  CommitCase-IsGone signature p id (bad_signature e same bad) g = g
  CommitCase-IsGone signature p id (refused sig e same good no_append) g = unfold append_signed in g
  CommitCase-IsGone signature p id (unreadable sig entry e same good done bad) g = refl
  CommitCase-IsGone signature p id (appended sig entry s same good done read) g = refl

  -- A commit uses its challenge up, also when it fails.
  pub commit_update-IsGone :
      (now : ℕ) (id signature : String) (account : PlogAccount)
      → IsGone id (commit_update now id signature account).1
  commit_update-IsGone now id signature account =
      let a = purge_expired_challenges now account in
      commit_update_cases now id account (λ r. IsGone id r.1) signature (λ _. forget-IsGone id a)
        λ p _.
          CommitCase-IsGone signature p id (commit_pending-CommitCase signature p (forget id a))
            (forget-IsGone id a)

  purge-IsGone :
      (now : ℕ) (id : String) (account : PlogAccount)
      → IsGone id account
      → IsGone id (purge_expired_challenges now account)
  unfolding purge_expired_challenges
  purge-IsGone now id account h = retain-none (is_live now) id account.pending h

  -- A challenge that is not pending cannot be committed.
  pub commit_update_unknown :
      (now : ℕ) (id signature : String) (account : PlogAccount)
      → IsGone id (purge_expired_challenges now account)
      → (commit_update now id signature account).0 ≡ err (challenge_not_found id)
  commit_update_unknown now id signature account h =
      commit_update_cases now id account (λ r. r.0 ≡ err (challenge_not_found id)) signature
        (λ _. refl) λ p present. cc (h, present)

  -- A second commit under one challenge id fails as unknown, however the first one ended.
  pub commit_update_twice :
      (now later : ℕ) (id signature again : String) (account : PlogAccount)
      → (commit_update later id again (commit_update now id signature account).1).0
        ≡ err (challenge_not_found id)
  commit_update_twice now later id signature again account =
      commit_update_unknown later id again _ (
        purge-IsGone later id (commit_update now id signature account).1
          (commit_update-IsGone now id signature account))

  -- Where the pending ids are distinct, a commit under a challenge that is as old as the limit or
  -- older fails as unknown.
  pub commit_update_expired :
      (now : ℕ) (id signature : String) (account : PlogAccount) (p : PendingUpdate)
      → IsDistinct account.pending
      → lookup id account.pending ≡ some p
      → p.created_at + challenge_ttl ≤ now
      → (commit_update now id signature account).0 ≡ err (challenge_not_found id)
  commit_update_expired now id signature account p d present old =
      commit_update_unknown now id signature account
        (lookup-purge now id account d ∙ (rw present (unfold is_live in ground arith)))
