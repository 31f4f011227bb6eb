-- ===== src/Account/Commit.antt =====
-- How `commit_update` ends: the cases of its body, and what each leaves behind.
use text.Mathlib.TextEquality.{eq_iff}
use logos_accounts.Prelude.{
  String, ◌≡◌, inl, inr, Option, Result, ok, err, arith, Result-cases, string_eq,
}
use logos_accounts.Error.{Error}
use logos_accounts.Externals.{Externals, Entry, Multisig}
use logos_accounts.Externals.Laws.{AppendLaws}
use logos_accounts.Encoding.{decode_multisig}
use logos_accounts.EntryUpdate.{commit_with_multisig}
use logos_accounts.Plog.{AccountSummary}
use logos_accounts.Account.{PendingUpdate, PlogAccount, UpdateKind, current_head_cid, summary}
use logos_accounts.Account.Committing.{
  commit_pending, append_signed, check_head, take_pending, clear_pending,
}
use logos_accounts.Account.Invariant.{IsValid, remove-IsValid}

module _ ⦃x : Externals⦄ where
  open x use {try_append, try_build_with_proof, multisig_to_bytes}

  -- What `commit_update` returns.
  abbrev pub Committed : Type 0
  Committed = Result (AccountSummary × UpdateKind × Option String) Error

  -- The log after the append of the pending entry, and no challenge.
  abbrev pub after_append : PendingUpdate → Multisig → PlogAccount → PlogAccount
  after_append p sig account = clear_pending (append_signed p.unsigned.entry sig account).1

  -- The cases of `commit_pending`, in the order of its early returns.
  pub data CommitCase (signature : String) (p : PendingUpdate) (account : PlogAccount)
      : Committed × PlogAccount → Type 0 where
    head_moved :
        (e : Error) → check_head p account ≡ err e → CommitCase signature p account (err e, account)
    bad_signature :
        (e : Error)
        → check_head p account ≡ ok tt
        → decode_multisig signature ≡ err e
        → CommitCase signature p account (err e, account)
    refused :
        (sig : Multisig) (e : Error)
        → check_head p account ≡ ok tt
        → decode_multisig signature ≡ ok sig
        → (append_signed p.unsigned.entry sig account).0 ≡ err e
        → CommitCase signature p account (err e, (append_signed p.unsigned.entry sig account).1)
    unreadable :
        (sig : Multisig) (entry : Entry) (e : Error)
        → check_head p account ≡ ok tt
        → decode_multisig signature ≡ ok sig
        → (append_signed p.unsigned.entry sig account).0 ≡ ok entry
        → summary (after_append p sig account) ≡ err e
        → CommitCase signature p account (err e, after_append p sig account)
    appended :
        (sig : Multisig) (entry : Entry) (s : AccountSummary)
        → check_head p account ≡ ok tt
        → decode_multisig signature ≡ ok sig
        → (append_signed p.unsigned.entry sig account).0 ≡ ok entry
        → summary (after_append p sig account) ≡ ok s
        → CommitCase signature p account (ok (s, p.kind, p.path), after_append p sig account)

  pub commit_pending-CommitCase :
      (signature : String) (p : PendingUpdate) (account : PlogAccount)
      → CommitCase signature p account (commit_pending signature p account)
  commit_pending-CommitCase signature p account = elim (Result-cases (check_head p account)) [
    | inr (e, moved) ↦ unfold commit_pending in rw moved (head_moved e moved)
    | inl (_, same) ↦ elim (Result-cases (decode_multisig signature)) [
      | inr (e, bad) ↦ unfold commit_pending in rw (same, bad) (bad_signature e same bad)
      | inl (sig, good) ↦ elim (Result-cases (append_signed p.unsigned.entry sig account).0) [
        | inr (e, no_append) ↦
            unfold commit_pending in rw (same, good, no_append) (refused sig e same good no_append)
        | inl (entry, done) ↦ elim (Result-cases (summary (after_append p sig account))) [
          | inl (s, read) ↦
              unfold commit_pending in
              rw (same, good, done, read) (appended sig entry s same good done read)
          | inr (e, unread) ↦
              unfold commit_pending in
              rw (same, good, done, unread) (unreadable sig entry e same good done unread)
        ]
      ]
    ]
  ]

  pub take_pending-IsValid :
      (id : String) {account : PlogAccount} → IsValid account → IsValid (take_pending id account).1
  unfolding take_pending
  take_pending-IsValid id v = remove-IsValid id v

  -- A refused commit leaves the log as it was.
  pub commit_with_multisig-rejected :
      AppendLaws
      → (account : PlogAccount) (unsigned : Entry) (signature : Multisig) (e : Error)
      → (commit_with_multisig account.log unsigned signature).0 ≡ err e
      → (commit_with_multisig account.log unsigned signature).1 ≡ account.log
  unfolding commit_with_multisig
  commit_with_multisig-rejected laws account unsigned signature e h =
      elim (Result-cases (try_build_with_proof unsigned (multisig_to_bytes signature))) [
        | inl (entry, built) ↦ elim (Result-cases (try_append account.log entry).0) [
          | inl (done, kept) ↦ absurd (ground (arith, built, kept))
          | inr (er, turned_down) ↦
              rw (built, commit_with_multisig)
                (laws.rejected_keeps account.log _ entry er
                  (λ i. (turned_down i, (try_append account.log entry).1)))
        ]
        | inr (er, failed) ↦ ground (arith, failed)
      ]

  IsValid-cleared : (account : PlogAccount) → IsValid (clear_pending account)
  IsValid-cleared account = record { distinct = tt; fresh = λ id p h. cc }

  append_signed-IsValid :
      AppendLaws
      → (p : PendingUpdate) (signature : Multisig) {account : PlogAccount} (e : Error)
      → IsValid account
      → (append_signed p.unsigned.entry signature account).0 ≡ err e
      → IsValid (append_signed p.unsigned.entry signature account).1
  unfolding append_signed
  append_signed-IsValid laws p signature {account} e v h =
      rw (commit_with_multisig-rejected laws account p.unsigned.entry signature e h) v

  pub check_head_fresh :
      (p : PendingUpdate) (account : PlogAccount)
      → p.head_cid ≡ current_head_cid account
      → check_head p account ≡ ok tt
  unfolding check_head
  check_head_fresh p account h = ground (arith, h, eq_iff (current_head_cid account) p.head_cid)

  CommitCase-IsValid :
      AppendLaws
      → (signature : String) (p : PendingUpdate) {account : PlogAccount}
        {r : Committed × PlogAccount}
      → CommitCase signature p account r
      → IsValid account
      → IsValid r.1
  CommitCase-IsValid laws signature p (head_moved e moved) v = v
  CommitCase-IsValid laws signature p (bad_signature e same bad) v = v
  CommitCase-IsValid laws signature p {account} (refused sig e same good no_append) v =
      append_signed-IsValid laws p sig {account = account} e v no_append
  CommitCase-IsValid laws signature p {account} (unreadable sig entry e same good done bad) v =
      IsValid-cleared (append_signed p.unsigned.entry sig account).1
  CommitCase-IsValid laws signature p {account} (appended sig entry s same good done read) v =
      IsValid-cleared (append_signed p.unsigned.entry sig account).1

  pub commit_pending-IsValid :
      AppendLaws
      → (signature : String) (p : PendingUpdate) {account : PlogAccount} → IsValid account
      → IsValid (commit_pending signature p account).1
  commit_pending-IsValid laws signature p {account} v =
      CommitCase-IsValid laws signature p (commit_pending-CommitCase signature p account) v
