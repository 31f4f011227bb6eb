-- ===== src/Account/Atomic.antt =====
-- A commit changes the log and succeeds, or does neither.
use logos_accounts.Prelude.{ℕ, String, ◌≡◌, refl, sym, ◌∙◌, some, [], ok, err, string_eq, arith}
use logos_accounts.Prelude.Dict.{lookup}
use logos_accounts.Error.{Error, challenge_not_found}
use logos_accounts.Externals.{Externals, Key, Entry}
use logos_accounts.EntryUpdate.{commit_with_multisig}
use logos_accounts.Externals.Laws.{AppendLaws, IsVerified}
use logos_accounts.Plog.{AccountSummary, summary_from_verified_plog}
use logos_accounts.Plog.Summary.{summary_from_verified_plog-total}
use logos_accounts.Account.{PendingUpdate, PlogAccount, purge_expired_challenges, summary}
use logos_accounts.Account.Committing.{commit_update, append_signed}
use logos_accounts.Account.Commit.{
  Committed, CommitCase, after_append, head_moved, bad_signature, refused, unreadable, appended,
  commit_pending-CommitCase, commit_with_multisig-rejected,
}
use logos_accounts.Account.Challenge.{forget, commit_update_cases}
use logos_accounts.Account.Enact.Committed.{Accepts, commit_with_multisig-Accepts}

module _ ⦃x : Externals⦄ where
  open x use {key_try_from}

  -- How a commit under `id` ends. On an error the log is as it was, and of the challenges only
  -- `id` and the expired ones are gone. On success the log has accepted the entry of the challenge
  -- `id`, completed with a proof, no challenge is left, and the result is the summary of the new
  -- log with the kind and path of the challenge.
  pub data Ends (now : ℕ) (id : String) (account : PlogAccount)
      : Committed × PlogAccount → Type 0 where
    failed :
        (e : Error) → Ends now id account (err e, forget id (purge_expired_challenges now account))
    committed :
        (p : PendingUpdate) (entry : Entry) (s : AccountSummary) (after : PlogAccount)
        → lookup id (purge_expired_challenges now account).pending ≡ some p
        → Accepts account.log p.unsigned.entry entry after.log
        → summary_from_verified_plog after.log ≡ ok s
        → after.pending ≡ []
        → Ends now id account (ok (s, p.kind, p.path), after)

  module _ (laws : AppendLaws) {key : Key} (parses : key_try_from "/pubkey" ≡ ok key) where
    CommitCase-Ends :
        (now : ℕ) (id signature : String) (account : PlogAccount) (p : PendingUpdate)
        {r : Committed × PlogAccount}
        → IsVerified account.log
        → lookup id (purge_expired_challenges now account).pending ≡ some p
        → CommitCase signature p (forget id (purge_expired_challenges now account)) r
        → Ends now id account r
    CommitCase-Ends now id signature account p v present (head_moved e moved) = failed e
    CommitCase-Ends now id signature account p v present (bad_signature e same bad) = failed e
    CommitCase-Ends now id signature account p v present (refused sig e same good no_append) =
        let a = forget id (purge_expired_challenges now account) in
        let kept =
          commit_with_multisig-rejected laws a p.unsigned.entry sig e
            (unfold append_signed in no_append) in
        unfold append_signed in rw kept (failed e)
    CommitCase-Ends now id signature account p v present
          (appended sig entry s same good done read) =
        committed p entry s (after_append p sig (forget id (purge_expired_challenges now account)))
          present
          (unfold append_signed purge_expired_challenges in
            commit_with_multisig-Accepts account.log p.unsigned.entry entry sig
              (unfold append_signed purge_expired_challenges in done))
          (unfold summary in read) refl
    CommitCase-Ends now id signature account p v present
          (unreadable sig entry e same good done bad) =
        let t =
          commit_with_multisig-Accepts account.log p.unsigned.entry entry sig
            (unfold append_signed purge_expired_challenges in done) in
        let (s, read) =
          summary_from_verified_plog-total parses
            (commit_with_multisig account.log p.unsigned.entry sig).1
            (laws.accepted_verifies account.log _ entry t.accepted v) in
        let lost : ok s ≡ err e =
          sym read ∙ (unfold summary append_signed purge_expired_challenges in bad) in
        absurd (ground (arith, lost))

    -- A commit on an account with a verified log changes the log and succeeds, or does neither. On
    -- an error the log is as it was, and of the challenges only the one named and the expired ones
    -- are gone. On success the log has accepted the entry of the challenge named, completed with a
    -- proof; no challenge is left, and the result is the summary of the new log with the
    -- challenge's kind and path. This uses that an append verifies what it accepts and keeps what
    -- it refuses, and that `/pubkey` is the text of a key.
    pub commit_update-Ends :
        (now : ℕ) (id signature : String) (account : PlogAccount)
        → IsVerified account.log
        → Ends now id account (commit_update now id signature account)
    commit_update-Ends now id signature account v =
        commit_update_cases now id account (λ r. Ends now id account r) signature
          (λ _. failed (challenge_not_found id))
          λ p present. CommitCase-Ends now id signature account p v present (
            commit_pending-CommitCase signature p
              (forget id (purge_expired_challenges now account)))
