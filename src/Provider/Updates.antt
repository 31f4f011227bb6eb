-- ===== src/Provider/Updates.antt =====
-- rust-lib/src/module.rs: the methods that prepare, commit and cancel updates.
use logos_accounts.Prelude.{ℕ, String, true, Option, none, some, List, [], ◌∷◌, Result, ok, err}
use logos_accounts.Error.{Error, to_string}
use logos_accounts.Externals.{Externals}
use logos_accounts.Plog.{AccountSummary}
use logos_accounts.Request.{FromStr}
use logos_accounts.Account.{
  Ambient, PlogAccount, UpdateChallenge, UpdateKind, entry_update, delegate, revoke,
}
use logos_accounts.Account.Preparing as Preparing
use logos_accounts.Account.Committing as Committing
use logos_accounts.Provider.{
  Event, Json, Output, Handler, silent, announce, err_json, text_or_error, summary_json,
  with_account_mut, account_updated, path_delegated, path_revoked,
}

module _ ⦃x : Externals⦄ (json : Json) where
  open json use {
    object_text, flag_text, count_text, summary_text, challenge_text, delegations_text, value_text,
    poison_text,
  }

  -- The match of the three `prepare_*` methods.
  unfoldable pub challenge_reply : Result UpdateChallenge Error → Output
  unfolding err_json text_or_error
  challenge_reply (ok challenge) = text_or_error json (challenge_text challenge)
  challenge_reply (err e) = err_json json (to_string e)

  abbrev pub replying :
      {A : Type 0} → (Result A Error → Output) → Result A Error × PlogAccount → Output × PlogAccount
  replying f r = (f r.0, r.1)

  unfoldable pub prepare_update : FromStr → Ambient → String → String → Handler
  unfolding with_account_mut challenge_reply
  prepare_update from_str env vlad request_json = with_account_mut json vlad λ account.
      replying challenge_reply (Preparing.prepare_update from_str env request_json account)

  unfoldable pub prepare_delegate : Ambient → String → String → String → Handler
  unfolding with_account_mut challenge_reply
  prepare_delegate env vlad path pubkey_multibase = with_account_mut json vlad λ account.
      replying challenge_reply (Preparing.prepare_delegate env path pubkey_multibase account)

  unfoldable pub prepare_revoke : Ambient → String → String → Handler
  unfolding with_account_mut challenge_reply
  prepare_revoke env vlad path =
      with_account_mut json vlad
        λ account. replying challenge_reply (Preparing.prepare_revoke env path account)

  -- The event of a delegation or a revocation, if its path is known.
  unfoldable pub path_events : UpdateKind → Option String → String → List Event
  path_events delegate (some p) vlad = path_delegated vlad p ∷ []
  path_events revoke (some p) vlad = path_revoked vlad p ∷ []
  path_events entry_update path vlad = []
  path_events delegate none vlad = []
  path_events revoke none vlad = []

  unfoldable pub commit_reply : Result (AccountSummary × UpdateKind × Option String) Error → Output
  unfolding err_json summary_json path_events
  commit_reply (ok (summary, kind, path)) =
      announce json (account_updated summary.head_cid ∷ path_events kind path summary.vlad)
        (summary_json json summary)
  commit_reply (err e) = err_json json (to_string e)

  unfoldable pub commit_update : ℕ → String → String → String → Handler
  unfolding with_account_mut commit_reply
  commit_update now vlad challenge_id signature_multibase = with_account_mut json vlad λ account.
      replying commit_reply (Committing.commit_update now challenge_id signature_multibase account)

  unfoldable pub cancel_reply : Result (Unit {0}) Error → Output
  unfolding err_json
  cancel_reply (ok _) = silent json (flag_text "cancelled" true)
  cancel_reply (err e) = err_json json (to_string e)

  unfoldable pub cancel_update : ℕ → String → String → Handler
  unfolding with_account_mut cancel_reply
  cancel_update now vlad challenge_id =
      with_account_mut json vlad
        λ account. replying cancel_reply (Committing.cancel_update now challenge_id account)
