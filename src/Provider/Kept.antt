-- ===== src/Provider/Kept.antt =====
-- The methods on one account keep what the module holds sound.
use logos_accounts.Prelude.{ℕ, String, bytes_eq}
use logos_accounts.Externals.{Externals}
use logos_accounts.Externals.Laws.{AppendLaws}
use logos_accounts.Request.{FromStr}
use logos_accounts.Account.{Ambient, PlogAccount}
use logos_accounts.Account.Specs.{
  prepare_update-prepared, prepare_delegate-prepared, prepare_revoke-prepared, update_spec_of,
  delegate_spec_of, revoke_spec_of,
}
use logos_accounts.Provider.{Json, Output, AccountsModule, with_account_mut}
use logos_accounts.Provider.Logs.{export_plog, get_value, list_delegations}
use logos_accounts.Provider.Updates.{
  prepare_update, prepare_delegate, prepare_revoke, commit_update, cancel_update,
}
use logos_accounts.Provider.Held.{
  HoldsSound, prepared-IsSound, commit_update-IsSound, cancel_update-IsSound,
}
use logos_accounts.Provider.Locked.{with_account_mut-HoldsSound}

module _ ⦃x : Externals⦄ (json : Json) where
  -- Where the account is only read.
  reading-HoldsSound :
      (vlad : String) (f : PlogAccount → Output) (m : AccountsModule)
      → HoldsSound m
      → HoldsSound (with_account_mut json vlad (λ account. (f account, account)) m).1
  reading-HoldsSound vlad f m s = with_account_mut-HoldsSound json vlad _ m (λ h account a. a) s

  pub export_plog-HoldsSound :
      (vlad : String) (m : AccountsModule) → HoldsSound m → HoldsSound (export_plog json vlad m).1
  unfolding export_plog
  export_plog-HoldsSound vlad m s = reading-HoldsSound vlad _ m s

  pub get_value-HoldsSound :
      (vlad path : String) (m : AccountsModule)
      → HoldsSound m
      → HoldsSound (get_value json vlad path m).1
  unfolding get_value
  get_value-HoldsSound vlad path m s = reading-HoldsSound vlad _ m s

  pub list_delegations-HoldsSound :
      (vlad : String) (m : AccountsModule)
      → HoldsSound m
      → HoldsSound (list_delegations json vlad m).1
  unfolding list_delegations
  list_delegations-HoldsSound vlad m s = reading-HoldsSound vlad _ m s

  pub prepare_update-HoldsSound :
      (from_str : FromStr) (env : Ambient) (vlad request : String) (m : AccountsModule)
      → HoldsSound m
      → HoldsSound (prepare_update json from_str env vlad request m).1
  unfolding prepare_update
  prepare_update-HoldsSound from_str env vlad request m s =
      with_account_mut-HoldsSound json vlad _ m
        (λ h account a.
          rw (prepare_update-prepared from_str env request account)
            (prepared-IsSound env (update_spec_of from_str request) h account a))
        s

  pub prepare_delegate-HoldsSound :
      (env : Ambient) (vlad path pubkey : String) (m : AccountsModule)
      → HoldsSound m
      → HoldsSound (prepare_delegate json env vlad path pubkey m).1
  unfolding prepare_delegate
  prepare_delegate-HoldsSound env vlad path pubkey m s =
      with_account_mut-HoldsSound json vlad _ m
        (λ h account a.
          rw (prepare_delegate-prepared env path pubkey account)
            (prepared-IsSound env (delegate_spec_of path pubkey account) h account a))
        s

  pub prepare_revoke-HoldsSound :
      (env : Ambient) (vlad path : String) (m : AccountsModule)
      → HoldsSound m
      → HoldsSound (prepare_revoke json env vlad path m).1
  unfolding prepare_revoke
  prepare_revoke-HoldsSound env vlad path m s =
      with_account_mut-HoldsSound json vlad _ m
        (λ h account a.
          rw (prepare_revoke-prepared env path account)
            (prepared-IsSound env (revoke_spec_of path account) h account a))
        s

  pub commit_update-HoldsSound :
      AppendLaws
      → (now : ℕ) (vlad id signature : String) (m : AccountsModule) → HoldsSound m
      → HoldsSound (commit_update json now vlad id signature m).1
  unfolding commit_update
  commit_update-HoldsSound laws now vlad id signature m s =
      with_account_mut-HoldsSound json vlad _ m (commit_update-IsSound laws now id signature) s

  pub cancel_update-HoldsSound :
      (now : ℕ) (vlad id : String) (m : AccountsModule)
      → HoldsSound m
      → HoldsSound (cancel_update json now vlad id m).1
  unfolding cancel_update
  cancel_update-HoldsSound now vlad id m s =
      with_account_mut-HoldsSound json vlad _ m (cancel_update-IsSound now id) s
