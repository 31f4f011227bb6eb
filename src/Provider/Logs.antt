-- ===== src/Provider/Logs.antt =====
-- rust-lib/src/module.rs: the methods that bring logs into the cache, take them out, and read them.
use logos_accounts.Prelude.{String, true, List, [], ◌∷◌, Result, ok, err}
use logos_accounts.Error.{Error, to_string}
use logos_accounts.Externals.{Externals}
use logos_accounts.EphemeralOpen.{OpenPlog, KeyGeneration}
use logos_accounts.Plog.{AccountSummary, PlogPathValue}
use logos_accounts.Delegations.{PathDelegation}
use logos_accounts.Account.{
  Ambient, PlogAccount, UpdateChallenge, UpdateKind, entry_update, delegate, revoke,
}
use logos_accounts.Account as Account
use logos_accounts.Cache.{AccountCache, Ref, Cell, new_cache, get_cell}
use logos_accounts.Cache as Cache
use logos_accounts.Provider.{
  Json, Output, Handler, silent, announce, err_json, text_or_error, summary_json, with_account_mut,
  reading, account_created,
}

module _ ⦃x : Externals⦄ (json : Json) where
  open json use {
    object_text, flag_text, count_text, summary_text, challenge_text, delegations_text, value_text,
    poison_text,
  }

  unfoldable pub inserted_reply : AccountSummary → Result AccountCache Error → Handler
  unfolding err_json summary_json
  inserted_reply summary (err e) m = (err_json json (to_string e), m)
  inserted_reply summary (ok cache) m = (summary_json json summary, record m { cache = cache })

  -- The common end of `create_account` and `import_plog`.
  unfoldable pub insert_opened : AccountSummary → PlogAccount → Handler
  unfolding inserted_reply
  insert_opened summary account m =
      inserted_reply summary (Cache.insert summary.vlad account m.cache) m

  unfoldable pub created_reply : Result (PlogAccount × AccountSummary) Error → Handler
  unfolding err_json insert_opened
  created_reply (ok (account, summary)) m =
      let inserted = insert_opened summary account m in
      (announce json (account_created summary.vlad ∷ []) inserted.0, inserted.1)
  created_reply (err e) m = (err_json json (to_string e), m)

  unfoldable pub create_account : OpenPlog → KeyGeneration → String → Handler
  unfolding created_reply
  create_account open_plog gen pubkey_multibase =
      created_reply (Account.create open_plog gen pubkey_multibase)

  unfoldable pub imported_reply : Result (PlogAccount × AccountSummary) Error → Handler
  unfolding err_json insert_opened
  imported_reply (ok (account, summary)) m = insert_opened summary account m
  imported_reply (err e) m = (err_json json (to_string e), m)

  unfoldable pub import_plog : String → Handler
  unfolding imported_reply
  import_plog plog_b64 = imported_reply (Account.import plog_b64)

  unfoldable pub export_plog : String → Handler
  unfolding with_account_mut
  export_plog vlad =
      with_account_mut json vlad (reading json λ account. silent json (Account.export_plog account))

  unfoldable pub removed_reply : Result AccountCache Error → Handler
  unfolding err_json
  removed_reply (ok cache) m = (silent json (flag_text "removed" true), record m { cache = cache })
  removed_reply (err e) m = (err_json json (to_string e), m)

  unfoldable pub remove_plog : String → Handler
  unfolding removed_reply
  remove_plog vlad m = removed_reply (Cache.remove vlad m.cache) m

  unfoldable pub clear_cache : Handler
  clear_cache m =
      let cleared = Cache.clear m.cache in
      (silent json (count_text "cleared" cleared.0), record m { cache = cleared.1 })

  -- `to_json_string`: a failing serializer makes an error text here, but no event.
  unfoldable pub to_json_string : PlogPathValue → String
  to_json_string v = elim (value_text v) [ ok t ↦ t | err e ↦ object_text "error" e ]

  unfoldable pub value_reply : Result PlogPathValue Error → Output
  unfolding err_json to_json_string
  value_reply (ok v) = silent json (to_json_string v)
  value_reply (err e) = err_json json (to_string e)

  unfoldable pub get_value : String → String → Handler
  unfolding with_account_mut value_reply
  get_value vlad path =
      with_account_mut json vlad
        (reading json λ account. value_reply (Account.get_value account path))

  unfoldable pub delegations_reply : Result (List PathDelegation) Error → Output
  unfolding err_json text_or_error
  delegations_reply (ok list) = text_or_error json (delegations_text list)
  delegations_reply (err e) = err_json json (to_string e)

  unfoldable pub list_delegations : String → Handler
  unfolding with_account_mut delegations_reply
  list_delegations vlad =
      with_account_mut json vlad
        (reading json λ account. delegations_reply (Account.list_delegations account))
