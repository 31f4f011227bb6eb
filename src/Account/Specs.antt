-- ===== src/Account/Specs.antt =====
-- The three `prepare_*` methods are one: each reads a specification of the next entry off its
-- arguments and the account, and hands it to `prepare_entry`.
use logos_accounts.Prelude.{String, ◌≡◌, Result, ok, err, arith}
use logos_accounts.Prelude.{◌>>=◌ as ◌>>=?◌}
use logos_accounts.Error.{Error}
use logos_accounts.Externals.{Externals}
use logos_accounts.Config.{parse_branch_path, delegate_pubkey_key, delegated_branch_lock_script}
use logos_accounts.Encoding.{decode_multikey}
use logos_accounts.Request.{FromStr, parse_entry_update_request}
use logos_accounts.Account.{
  Ambient, PrepareEntrySpec, PlogAccount, Method, UpdateChallenge, prepare_entry,
}
use logos_accounts.Account.Preparing.{
  entry_spec, prepare_update, lock_parts, delegate_spec, signer_for, prepare_delegate, revoke_spec,
  prepare_revoke,
}

module _ ⦃x : Externals⦄ where
  -- `prepare_entry` on a specification that may have failed.
  abbrev pub prepared : Ambient → Result PrepareEntrySpec Error → Method UpdateChallenge
  prepared env (ok spec) account = prepare_entry env spec account
  prepared env (err e) account = (err e, account)

  abbrev pub update_spec_of : FromStr → String → Result PrepareEntrySpec Error
  update_spec_of from_str request = parse_entry_update_request from_str request >>=? entry_spec

  abbrev pub delegate_spec_of : String → String → PlogAccount → Result PrepareEntrySpec Error
  delegate_spec_of path pubkey account = parse_branch_path path >>=? λ branch.
      decode_multikey pubkey >>=? λ mk. delegate_pubkey_key branch >>=? λ pk_key.
      lock_parts (delegated_branch_lock_script branch) >>=? λ lock.
      signer_for branch account >>=? λ sign_as. ok (delegate_spec branch pk_key mk lock sign_as)

  abbrev pub revoke_spec_of : String → PlogAccount → Result PrepareEntrySpec Error
  revoke_spec_of path account = parse_branch_path path >>=? λ branch.
      delegate_pubkey_key branch >>=? λ pk_key.
      signer_for branch account >>=? λ sign_as. ok (revoke_spec branch pk_key sign_as)

  pub prepare_update-prepared :
      (from_str : FromStr) (env : Ambient) (request : String) (account : PlogAccount)
      → prepare_update from_str env request account
        ≡ prepared env (update_spec_of from_str request) account
  prepare_update-prepared from_str env request account = unfold prepare_update in ground arith

  pub prepare_delegate-prepared :
      (env : Ambient) (path pubkey : String) (account : PlogAccount)
      → prepare_delegate env path pubkey account
        ≡ prepared env (delegate_spec_of path pubkey account) account
  prepare_delegate-prepared env path pubkey account = unfold prepare_delegate in ground arith

  pub prepare_revoke-prepared :
      (env : Ambient) (path : String) (account : PlogAccount)
      → prepare_revoke env path account ≡ prepared env (revoke_spec_of path account) account
  prepare_revoke-prepared env path account = unfold prepare_revoke in ground arith
