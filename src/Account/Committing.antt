-- ===== src/Account/Committing.antt =====
-- rust-lib/src/api.rs: `commit_update` and `cancel_update` of `PlogAccount`.
use logos_accounts.Prelude.{
  ℕ, String, not, Option, [], Result, ok, err, ok_or, ◌==◌, string_eq, if◌then◌else◌,
}
use logos_accounts.Prelude.Dict.{lookup, remove}
use logos_accounts.Prelude.Exec.{pure, lift, reads, modify, ◌>>=◌, ◌>>◌}
use logos_accounts.Error.{Error, challenge_not_found, head_mismatch}
use logos_accounts.Externals.{Externals, Entry, Multisig}
use logos_accounts.Encoding.{decode_multisig}
use logos_accounts.EntryUpdate.{commit_with_multisig}
use logos_accounts.Plog.{AccountSummary}
use logos_accounts.Account.{
  UpdateKind, PendingUpdate, PlogAccount, Method, summary, current_head_cid,
  purge_expired_challenges,
}

module _ ⦃x : Externals⦄ where
  open x use {log_vlad, log_head, key_to_string, other_debug}

  -- `pending.remove(id).ok_or_else(…)?`
  unfoldable pub take_pending : String → Method PendingUpdate
  take_pending id account = (
    ok_or (challenge_not_found id) (lookup id account.pending),
    record account { pending = remove id account.pending },
  )

  unfoldable pub check_head : PendingUpdate → PlogAccount → Result (Unit {0}) Error
  check_head p account =
      if not (current_head_cid account == p.head_cid)
      then err (head_mismatch p.head_cid (current_head_cid account))
      else ok tt

  unfoldable pub append_signed : Entry → Multisig → Method Entry
  append_signed unsigned signature account =
      let committed = commit_with_multisig account.log unsigned signature in
      (committed.0, record account { log = committed.1 })

  abbrev pub clear_pending : PlogAccount → PlogAccount
  clear_pending account = record account { pending = [] }

  -- `commit_update` after the challenge has been taken.
  unfoldable pub commit_pending :
      String → PendingUpdate → Method (AccountSummary × UpdateKind × Option String)
  unfolding check_head append_signed
  commit_pending signature_multibase p = do
    reads (check_head p)
    signature ← lift (decode_multisig signature_multibase)
    append_signed p.unsigned.entry signature
    modify clear_pending
    s ← reads summary
    pure (s, p.kind, p.path)

  unfoldable pub commit_update :
      ℕ → String → String → Method (AccountSummary × UpdateKind × Option String)
  unfolding purge_expired_challenges take_pending commit_pending
  commit_update now challenge_id signature_multibase = do
    modify (purge_expired_challenges now)
    p ← take_pending challenge_id
    commit_pending signature_multibase p

  unfoldable pub cancel_update : ℕ → String → Method (Unit {0})
  unfolding purge_expired_challenges take_pending
  cancel_update now challenge_id = do
    modify (purge_expired_challenges now)
    take_pending challenge_id
    pure tt
