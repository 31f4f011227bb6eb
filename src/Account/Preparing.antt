-- ===== src/Account/Preparing.antt =====
-- rust-lib/src/api.rs: the three `prepare_*` methods of `PlogAccount`.
use Prim.Native.String.{◌++◌}
use logos_accounts.Prelude.{String, Option, none, some, [], ◌∷◌, Result, ok, err, string_eq}
use logos_accounts.Prelude.{◌>>=◌ as ◌>>=?◌}
use logos_accounts.Prelude.Exec.{lift, reads, ◌>>=◌}
use logos_accounts.Error.{Error, invalid_op}
use logos_accounts.Externals.{Externals, Key, Script, Multikey, OpParamsOf, code, other}
use logos_accounts.Config.{
  delegate_pubkey_key, delegated_branch_lock_script, parse_branch_path, pubkey_key_path,
}
use logos_accounts.Encoding.{decode_multikey}
use logos_accounts.EntryUpdate.{use_key_op}
use logos_accounts.Plog.{parse_key}
use logos_accounts.Request.{
  LockSpec, LockScriptJson, EntryUpdateRequest, FromStr, parse_entry_update_request,
  plog_ops_to_params,
}
use logos_accounts.Delegations.{resolve_closest_parent_signing_key}
use logos_accounts.Account.{
  UpdateChallenge, Ambient, PrepareEntrySpec, PlogAccount, Method, list_delegations, prepare_entry,
  entry_update, delegate, revoke,
}

module _ ⦃x : Externals⦄ where
  open x use {log_vlad, log_head, key_to_string, other_debug}

  -- `sign_as`, or `/pubkey`.
  unfoldable pub sign_as_or_default : Option String → String
  sign_as_or_default (some s) = s
  sign_as_or_default none = key_to_string pubkey_key_path

  unfoldable pub entry_spec : EntryUpdateRequest → Result PrepareEntrySpec Error
  unfolding sign_as_or_default
  entry_spec req = parse_key (sign_as_or_default req.sign_as) >>=? λ _.
      plog_ops_to_params req.ops >>=? λ ops. ok (record {
        locks = req.locks;
        ops = ops;
        sign_as = sign_as_or_default req.sign_as;
        kind = entry_update;
        path = none;
      })

  unfoldable pub prepare_update : FromStr → Ambient → String → Method UpdateChallenge
  unfolding entry_spec
  prepare_update from_str env request_json = do
    req ← lift (parse_entry_update_request from_str request_json)
    spec ← lift (entry_spec req)
    prepare_entry env spec

  -- The path and the source of a `Code` lock.
  unfoldable pub lock_parts : Script → Result LockScriptJson Error
  lock_parts (code p c) = ok (record { path = key_to_string p; source = c })
  lock_parts (other o) = err (invalid_op ("expected Code lock script, got " ++ other_debug o))

  unfoldable pub delegate_spec : Key → Key → Multikey → LockScriptJson → String → PrepareEntrySpec
  delegate_spec branch pk_key mk lock sign_as = record {
    locks = LockSpec.upsert lock;
    ops = use_key_op pk_key mk ∷ [];
    sign_as = sign_as;
    kind = delegate;
    path = some (key_to_string branch);
  }

  -- The key that signs for `branch`, by the delegations at the head.
  unfoldable pub signer_for : Key → PlogAccount → Result String Error
  signer_for branch account =
      list_delegations account >>=? resolve_closest_parent_signing_key branch

  unfoldable pub prepare_delegate : Ambient → String → String → Method UpdateChallenge
  unfolding lock_parts delegate_spec signer_for
  prepare_delegate env path pubkey_multibase = do
    branch ← lift (parse_branch_path path)
    mk ← lift (decode_multikey pubkey_multibase)
    pk_key ← lift (delegate_pubkey_key branch)
    lock ← lift (lock_parts (delegated_branch_lock_script branch))
    sign_as ← reads (signer_for branch)
    prepare_entry env (delegate_spec branch pk_key mk lock sign_as)

  unfoldable pub revoke_spec : Key → Key → String → PrepareEntrySpec
  revoke_spec branch pk_key sign_as = record {
    locks = LockSpec.remove (key_to_string branch);
    ops = OpParamsOf.delete pk_key ∷ [];
    sign_as = sign_as;
    kind = revoke;
    path = some (key_to_string branch);
  }

  unfoldable pub prepare_revoke : Ambient → String → Method UpdateChallenge
  unfolding revoke_spec signer_for
  prepare_revoke env path = do
    branch ← lift (parse_branch_path path)
    pk_key ← lift (delegate_pubkey_key branch)
    sign_as ← reads (signer_for branch)
    prepare_entry env (revoke_spec branch pk_key sign_as)
