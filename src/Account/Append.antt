-- ===== src/Account/Append.antt =====
-- What a commit does to the log, and that a prepared entry is the one committed.
use logos_accounts.Prelude.{
  ℕ, ◌+◌, ◌<◌, String, ◌≡◌, refl, ◌∙◌, ◌⊎◌, inl, inr, some, ok, arith, Result-cases, string_eq,
  ==_refl, [],
}
use logos_accounts.Prelude.Dict.{lookup, lookup-insert}
use logos_accounts.Externals.{Externals, Entry, Log, Multisig}
use logos_accounts.Encoding.{decode_multisig}
use logos_accounts.EntryUpdate.{UnsignedUpdate, commit_with_multisig}
use logos_accounts.Plog.{AccountSummary, summary_from_verified_plog}
use logos_accounts.Account.{
  Ambient, PrepareEntrySpec, PendingUpdate, PlogAccount, purge_expired_challenges, is_live,
  current_head_cid, summary, challenge_ttl, assemble, prepare_entry, insert_pending, pending_of,
  new_challenge_id,
}
use logos_accounts.Account.Committing.{commit_update, append_signed, check_head}
use logos_accounts.Account.Prepare.{prepare_entry-outcome}
use logos_accounts.Account.Invariant.{IsValid, lookup-purge}
use logos_accounts.Account.Methods.{prepare_entry-IsValid}
use logos_accounts.Account.Commit.{
  Committed, CommitCase, head_moved, bad_signature, refused, unreadable, appended,
  commit_pending-CommitCase, check_head_fresh,
}
use logos_accounts.Account.Challenge.{forget, commit_update_cases}

module _ ⦃x : Externals⦄ where
  open x use {try_append, try_build_with_proof, multisig_to_bytes}

  -- `after` is `log`, or what an append leaves of `log`, of an entry that the proof `sig` completes
  -- from the unsigned entry of `p`.
  pub data Appends (signature : String) (p : PendingUpdate) (log after : Log) : Type 0 where
    kept : after ≡ log → Appends signature p log after
    signed :
        (sig : Multisig) (entry : Entry)
        → decode_multisig signature ≡ ok sig
        → try_build_with_proof p.unsigned.entry (multisig_to_bytes sig) ≡ ok entry
        → after ≡ (try_append log entry).1
        → Appends signature p log after

  append_signed-Appends :
      (signature : String) (sig : Multisig) (p : PendingUpdate) (account : PlogAccount)
      → decode_multisig signature ≡ ok sig
      → Appends signature p account.log (append_signed p.unsigned.entry sig account).1.log
  append_signed-Appends signature sig p account good =
      elim (Result-cases (try_build_with_proof p.unsigned.entry (multisig_to_bytes sig))) [
        | inl (entry, built) ↦
            signed sig entry good built
              (unfold append_signed commit_with_multisig in rw (built, commit_with_multisig))
        | inr (e, failed) ↦
            kept (unfold append_signed commit_with_multisig in rw (failed, commit_with_multisig))
      ]

  CommitCase-Appends :
      (signature : String) (p : PendingUpdate) {account : PlogAccount} {r : Committed × PlogAccount}
      → CommitCase signature p account r
      → Appends signature p account.log r.1.log
  CommitCase-Appends signature p (head_moved e moved) = kept refl
  CommitCase-Appends signature p (bad_signature e same bad) = kept refl
  CommitCase-Appends signature p {account} (refused sig e same good no_append) =
      append_signed-Appends signature sig p account good
  CommitCase-Appends signature p {account} (unreadable sig entry e same good done bad) =
      append_signed-Appends signature sig p account good
  CommitCase-Appends signature p {account} (appended sig entry s same good done read) =
      append_signed-Appends signature sig p account good

  -- A commit leaves the log as it is, or as an append leaves it of the entry that the pending
  -- challenge of that id holds, completed with the proof that the signature text decodes to.
  pub commit_update-Appends :
      (now : ℕ) (id signature : String) (account : PlogAccount)
      → let after = (commit_update now id signature account).1.log in
        (after ≡ account.log)
        ⊎ ((p : PendingUpdate) × (lookup id (purge_expired_challenges now account).pending ≡ some p)
            × Appends signature p account.log after)
  commit_update-Appends now id signature account =
      let a = purge_expired_challenges now account in
      commit_update_cases now id account
        (λ r.
          (r.1.log ≡ account.log)
          ⊎ ((p : PendingUpdate) × (lookup id a.pending ≡ some p)
              × Appends signature p account.log r.1.log))
        signature (λ _. inl (unfold purge_expired_challenges in refl))
        λ p present. inr (
          p,
          present,
          (unfold purge_expired_challenges in
              CommitCase-Appends signature p (commit_pending-CommitCase signature p (forget id a))),
        )

  -- On a valid account, a commit succeeds if its challenge is pending and younger than the limit,
  -- its signature text decodes, the log accepts the entry and the new log has a summary. It then
  -- returns that summary with the challenge's kind and path, and leaves the new log with no
  -- challenge pending.
  pub commit_update-eq-ok :
      (now : ℕ) (id signature : String) {account : PlogAccount} {p : PendingUpdate} {sig : Multisig}
      {entry : Entry} {log' : Log} {s : AccountSummary}
      → IsValid account
      → lookup id account.pending ≡ some p
      → now < p.created_at + challenge_ttl
      → decode_multisig signature ≡ ok sig
      → commit_with_multisig account.log p.unsigned.entry sig ≡ (ok entry, log')
      → summary_from_verified_plog log' ≡ ok s
      → commit_update now id signature account
        ≡ (ok (s, p.kind, p.path), record { log = log'; pending = [] })
  commit_update-eq-ok now id signature {account} {p} {sig} {entry} {log'} {s} v present young good
        done read =
      let a = purge_expired_challenges now account in
      let found : lookup id a.pending ≡ some p =
        lookup-purge now id account v.distinct ∙ (rw present (unfold is_live in ground arith)) in
      let same : check_head p (forget id a) ≡ ok tt =
        check_head_fresh p (forget id a)
          (unfold current_head_cid purge_expired_challenges in (v.fresh id p present).at_head) in
      unfold commit_update append_signed summary in rw (found, same, good, done, read) refl

  -- On a valid account, `prepare_entry` and then `commit_update` under the new challenge's id
  -- commits the entry that was assembled, if the challenge is still young, the signature text
  -- decodes, the log accepts the entry and the new log has a summary. The result has the kind and
  -- path that were asked for, and no challenge is left.
  pub commit_update-prepare_entry :
      (env : Ambient) (spec : PrepareEntrySpec) (now : ℕ) (signature : String)
      {account : PlogAccount} {u : UnsignedUpdate} {sig : Multisig} {entry : Entry} {log' : Log}
      {s : AccountSummary}
      → IsValid account
      → assemble spec (purge_expired_challenges env.now account) ≡ ok u
      → now < env.inserted_at + challenge_ttl
      → decode_multisig signature ≡ ok sig
      → commit_with_multisig account.log u.entry sig ≡ (ok entry, log')
      → summary_from_verified_plog log' ≡ ok s
      → commit_update now (new_challenge_id env.random) signature (prepare_entry env spec account).1
        ≡ (ok (s, spec.kind, spec.path), record { log = log'; pending = [] })
  commit_update-prepare_entry env spec now signature {account} {u} v made young good done read =
      let a = purge_expired_challenges env.now account in
      let id = new_challenge_id env.random in
      let p = pending_of env spec u a in
      let after : (prepare_entry env spec account).1 ≡ insert_pending id p a =
        rw (prepare_entry-outcome env spec account, made) refl in
      let found : lookup id (insert_pending id p a).pending ≡ some p =
        unfold insert_pending in lookup-insert id id p a.pending ∙ (rw (==_refl id) refl) in
      let valid : IsValid (insert_pending id p a) =
        rw after at (prepare_entry-IsValid env spec v) in
      rw after (
        unfold pending_of insert_pending purge_expired_challenges in
        commit_update-eq-ok now id signature valid found young good done read)
