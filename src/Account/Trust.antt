-- ===== src/Account/Trust.antt =====
-- What the methods leave of the log.
use logos_accounts.Prelude.{
  ℕ, String, ◌≡◌, refl, ap, ◌∙◌, ◌⊎◌, inl, inr, Option, Result, ok, err, arith, Result-cases, [],
  >>=-eq-ok,
}
use logos_accounts.Error.{Error}
use logos_accounts.Externals.{Externals, Entry, Log}
use logos_accounts.Externals.Laws.{AppendLaws, IsVerified}
use logos_accounts.EntryUpdate.{UnsignedUpdate}
use logos_accounts.Account.{
  Ambient, PrepareEntrySpec, PendingUpdate, PlogAccount, purge_expired_challenges, assemble,
  insert_pending, summary, current_head_cid, UpdateKind,
}
use logos_accounts.Account.Committing.{commit_update, cancel_update}
use logos_accounts.Account.Prepare.{outcome, prepare_entry-outcome}
use logos_accounts.Account.Specs.{prepared}
use logos_accounts.Account.Challenge.{cancel_update_cases, commit_update_cases, forget}
use logos_accounts.Account.Commit.{
  Committed, CommitCase, head_moved, bad_signature, refused, unreadable, appended,
  commit_pending-CommitCase,
}
use logos_accounts.Plog.{
  AccountSummary, summary_from_verified_plog, ensure_plog_verified, optional_pubkey, get_plog_value,
}
use logos_accounts.Account.Append.{Appends, kept, signed, commit_update-Appends}

module _ ⦃x : Externals⦄ where
  open x use {try_append, log_vlad}

  try_append_cases :
      (log : Log) (entry : Entry)
      → (try_append log entry ≡ (ok tt, (try_append log entry).1))
        ⊎ ((e : Error) × (try_append log entry ≡ (err e, (try_append log entry).1)))
  try_append_cases log entry = elim (Result-cases (try_append log entry).0) [
    | inl (tt, e) ↦ inl (ap (λ r. (r, (try_append log entry).1)) e)
    | inr (e, h) ↦ inr (e, ap (λ r. (r, (try_append log entry).1)) h)
  ]

  module _ (laws : AppendLaws) (P : Log → Type 0)
      (grow : (log log' : Log) (entry : Entry)
        → try_append log entry ≡ (ok tt, log')
        → P log
        → P log') where
    append_keeps : (log : Log) (entry : Entry) → P log → P (try_append log entry).1
    append_keeps log entry h = elim (try_append_cases log entry) [
      | inl accepted ↦ grow log _ entry accepted h
      | inr (e, rejected) ↦ rw (laws.rejected_keeps log _ entry e rejected) h
    ]

    Appends-keeps :
        (signature : String) (p : PendingUpdate) {log after : Log}
        → P log
        → Appends signature p log after
        → P after
    Appends-keeps signature p h (kept e) = rw e h
    Appends-keeps signature p {log} h (signed sig entry good built e) =
        rw e (append_keeps log entry h)

    commit_keeps :
        (now : ℕ) (id signature : String) (account : PlogAccount)
        → P account.log
        → P (commit_update now id signature account).1.log
    commit_keeps now id signature account h =
        elim (commit_update-Appends now id signature account) [
          | inl same ↦ rw same h
          | inr (p, found, a) ↦ Appends-keeps signature p h a
        ]

  -- A commit on a verified log, successful or not, leaves a verified log of the same VLAD. This
  -- uses that an append keeps the VLAD, verifies what it accepts and keeps what it refuses.
  pub commit_update-IsVerified :
      AppendLaws
      → (now : ℕ) (id signature : String) (account : PlogAccount) → IsVerified account.log
      → let after = (commit_update now id signature account).1.log in
        IsVerified after × (log_vlad after ≡ log_vlad account.log)
  commit_update-IsVerified laws now id signature account v = (
    commit_keeps laws IsVerified laws.accepted_verifies now id signature account v,
    commit_keeps laws (λ log. log_vlad log ≡ log_vlad account.log)
        (λ log log' entry e h. laws.accepted_keeps_vlad log log' entry e ∙ h) now id signature
        account refl,
  )

  outcome-log :
      (env : Ambient) (spec : PrepareEntrySpec) (a : PlogAccount) (r : Result UnsignedUpdate Error)
      → (outcome env spec a r).1.log ≡ a.log
  unfolding insert_pending
  outcome-log env spec a (ok u) = refl
  outcome-log env spec a (err e) = refl

  pub prepared-log :
      (env : Ambient) (r : Result PrepareEntrySpec Error) (account : PlogAccount)
      → (prepared env r account).1.log ≡ account.log
  prepared-log env (err e) account = refl
  prepared-log env (ok spec) account =
      let a = purge_expired_challenges env.now account in
      rw (prepare_entry-outcome env spec account)
        (outcome-log env spec a (assemble spec a) ∙ (unfold purge_expired_challenges in refl))

  pub cancel_update-log :
      (now : ℕ) (id : String) (account : PlogAccount)
      → (cancel_update now id account).1.log ≡ account.log
  cancel_update-log now id account =
      cancel_update_cases now id account (λ r. r.1.log ≡ account.log)
        (λ _. unfold purge_expired_challenges in refl)
        λ p _. unfold purge_expired_challenges in refl

  summary-head :
      (account : PlogAccount) (s : AccountSummary)
      → summary account ≡ ok s
      → s.head_cid ≡ current_head_cid account
  unfolding summary summary_from_verified_plog current_head_cid
  summary-head account s h =
      let (checked, e, rest) = >>=-eq-ok (ensure_plog_verified account.log) _ h in
      let (pubkey, e', last) =
        >>=-eq-ok (optional_pubkey (get_plog_value account.log "/pubkey")) _ rest in
      ground (arith, last)

  -- The account that a commit reports: at the head that the summary names, with no challenge left.
  pub record Reported (s : AccountSummary) (account : PlogAccount) : Type 0 where
    pub at_head : s.head_cid ≡ current_head_cid account
    pub emptied : account.pending ≡ []

  CommitCase-Reported :
      (signature : String) (p : PendingUpdate) {account : PlogAccount} {r : Committed × PlogAccount}
      (s : AccountSummary) (kind : UpdateKind) (path : Option String)
      → CommitCase signature p account r
      → r.0 ≡ ok (s, kind, path)
      → Reported s r.1
  CommitCase-Reported signature p s kind path (head_moved e moved) h = absurd (cc)
  CommitCase-Reported signature p s kind path (bad_signature e same bad) h = absurd (cc)
  CommitCase-Reported signature p s kind path (refused sig e same good no_append) h = absurd (cc)
  CommitCase-Reported signature p s kind path (unreadable sig entry e same good done bad) h =
      absurd (cc)
  CommitCase-Reported signature p s kind path (appended sig entry s' same good done read) h =
      let is : s' ≡ s = ground (arith, h) in
      record { at_head = rw (← is) (summary-head _ s' read); emptied = refl }

  pub commit_update-Reported :
      (now : ℕ) (id signature : String) (account : PlogAccount) (s : AccountSummary)
      (kind : UpdateKind) (path : Option String)
      → (commit_update now id signature account).0 ≡ ok (s, kind, path)
      → Reported s (commit_update now id signature account).1
  commit_update-Reported now id signature account s kind path =
      commit_update_cases now id account (λ r. r.0 ≡ ok (s, kind, path) → Reported s r.1) signature
        (λ _ h. absurd (cc))
        λ p _ h.
          CommitCase-Reported signature p s kind path
            (commit_pending-CommitCase signature p
              (forget id (purge_expired_challenges now account)))
            h
