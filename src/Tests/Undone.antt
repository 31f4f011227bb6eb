-- ===== src/Tests/Undone.antt =====
-- The theorem on a delegation and its revocation, on the small libraries.
use logos_accounts.Prelude.{◌≡◌, refl, some, ok}
use logos_accounts.EntryUpdate.{
  last_entry, commit_with_multisig, prepare_next_entry, use_key_op, op_from_params,
  locks_replacing_path,
}
use logos_accounts.Account.{
  PlogAccount, delegate, revoke, head_entry, prepare_entry, next_spec, list_delegations,
  current_head_cid, new_challenge_id, vlad, summary,
}
use logos_accounts.Account.Preparing.{prepare_delegate, prepare_revoke}
use logos_accounts.Account.Committing.{commit_update}
use logos_accounts.Account.Enact.Undone.{Undone, prepare_revoke-prepare_delegate}
use logos_accounts.Prelude.Sort.{sort_by}
use logos_accounts.Config.{
  parse_branch_path, delegate_pubkey_key, delegated_branch_lock_script, pubkey_key_path,
  delegated_lock_code,
}
use logos_accounts.Encoding.{
  decode_multikey, decode_multisig, encode_bytes_multibase, encode_vlad, encode_cid,
  encode_multikey,
}
use logos_accounts.Delegations.{list_plog_delegations, resolve_closest_parent_signing_key}
use logos_accounts.Request.{lock_spec_to_scripts}
use logos_accounts.Plog.{verified_head, parse_key, summary_from_verified_plog, get_plog_value}
use logos_accounts.Tests.Demo.{demo, first_entry}
use logos_accounts.Tests.Laws.{demo-AppendLaws, demo-KeyLaws, opened_log-IsVerified}
use logos_accounts.Tests.Accounts.{opened, at_noon}
use logos_accounts.Tests.Enacted.{
  demo-EntryLaws, demo-MultikeyLaws, delegating, delegated_summary, delegation_prepared,
  delegation_committed, revoking, opened-IsValid,
}

-- The account once the delegation is committed.
abbrev granted : PlogAccount
granted = (commit_update 5000 "ii." "1" (prepare_delegate at_noon "/a/" "k" opened).1).1

granted_revocation : (prepare_revoke at_noon "/a/" granted).0 ≡ ok revoking
unfolding prepare_delegate prepare_revoke parse_branch_path decode_multikey delegate_pubkey_key
    delegated_branch_lock_script list_delegations list_plog_delegations verified_head
    resolve_closest_parent_signing_key sort_by prepare_entry head_entry last_entry
    lock_spec_to_scripts parse_key prepare_next_entry next_spec op_from_params use_key_op
    new_challenge_id vlad pubkey_key_path current_head_cid encode_bytes_multibase encode_vlad
    encode_cid commit_update decode_multisig commit_with_multisig summary summary_from_verified_plog
    get_plog_value encode_multikey locks_replacing_path delegated_lock_code
granted_revocation = refl

granted_revoked :
    (commit_update 5000 "ii." "1" (prepare_revoke at_noon "/a/" granted).1).0
    ≡ ok (record delegated_summary { head_cid = "iii." }, revoke, some "/a/")
unfolding prepare_delegate prepare_revoke parse_branch_path decode_multikey delegate_pubkey_key
    delegated_branch_lock_script list_delegations list_plog_delegations verified_head
    resolve_closest_parent_signing_key sort_by prepare_entry head_entry last_entry
    lock_spec_to_scripts parse_key prepare_next_entry next_spec op_from_params use_key_op
    new_challenge_id vlad pubkey_key_path current_head_cid encode_bytes_multibase encode_vlad
    encode_cid commit_update decode_multisig commit_with_multisig summary summary_from_verified_plog
    get_plog_value encode_multikey locks_replacing_path delegated_lock_code
granted_revoked = refl

branch_parsed : parse_branch_path "/a/" ≡ ok "/a/"
unfolding parse_branch_path parse_key
branch_parsed = refl

opened_head : head_entry opened ≡ ok first_entry
unfolding head_entry last_entry
opened_head = refl

prepare_revoke-prepare_delegate_example :
    Undone opened (commit_update 5000 "ii." "1" (prepare_revoke at_noon "/a/" granted).1).1
prepare_revoke-prepare_delegate_example =
    prepare_revoke-prepare_delegate demo-AppendLaws demo-EntryLaws demo-KeyLaws demo-MultikeyLaws
      "/a/" "k" at_noon at_noon 5000 5000 "1" "1" opened granted _ delegating revoking
      (delegated_summary, delegate, some "/a/")
      (record delegated_summary { head_cid = "iii." }, revoke, some "/a/") opened-IsValid
      opened_log-IsVerified branch_parsed opened_head refl delegation_prepared
      (λ i. (delegation_committed i, granted)) granted_revocation
      λ i. (
        granted_revoked i,
        (commit_update 5000 "ii." "1" (prepare_revoke at_noon "/a/" granted).1).1,
      )
