-- ===== src/Tests/Replies.antt =====
-- The theorem on a delegation through the module's methods, after an import.
use logos_accounts.Prelude.{◌≡◌, refl, false, some, none, [], ◌∷◌, ok, bytes_eq}
use logos_accounts.Account.{
  PlogAccount, UpdateChallenge, delegate, head_entry, prepare_entry, next_spec, list_delegations,
  current_head_cid, new_challenge_id, vlad, summary,
}
use logos_accounts.Account as Account
use logos_accounts.Account.Preparing.{prepare_delegate}
use logos_accounts.Account.Committing.{commit_update}
use logos_accounts.Cache.{key_from_multibase, insert_by_hash, new_cache, VladHash}
use logos_accounts.Cache as Cache
use logos_accounts.Cache.View.{view}
use logos_accounts.Config.{
  parse_branch_path, delegate_pubkey_key, delegated_branch_lock_script, pubkey_key_path,
}
use logos_accounts.Delegations.{list_plog_delegations, resolve_closest_parent_signing_key}
use logos_accounts.Encoding.{
  decode_plog, decode_vlad, decode_multikey, decode_multisig, encode_bytes_multibase, encode_vlad,
  encode_cid, encode_multikey,
}
use logos_accounts.Encoding.Hex.{vlad_hash}
use logos_accounts.EntryUpdate.{
  last_entry, prepare_next_entry, commit_with_multisig, use_key_op, op_from_params,
}
use logos_accounts.Plog.{
  AccountSummary, verified_head, parse_key, summary_from_verified_plog, get_plog_value,
}
use logos_accounts.Prelude.Sort.{sort_by}
use logos_accounts.Provider.{AccountsModule, default_module}
use logos_accounts.Provider.Logs.{import_plog}
use logos_accounts.Provider.Held.{HoldsSound}
use logos_accounts.Provider.Enacted.{Replies, prepare_delegate-Replies}
use logos_accounts.Request.{lock_spec_to_scripts}
use logos_accounts.Dispatch.{dispatch_impl, instance_or_default}
use logos_accounts.Dispatch.Sessions.{start, step, Reachable-HoldsSound}
use logos_accounts.Tests.Demo.{demo, first_entry}
use logos_accounts.Tests.Accounts.{at_noon}
use logos_accounts.Tests.Laws.{demo-AppendLaws, demo-KeyLaws, demo-VladLaws}
use logos_accounts.Tests.Enacted.{demo-EntryLaws, demo-MultikeyLaws}
use logos_accounts.Tests.Sessions.{demo_json, demo_surroundings}

abbrev with_import : AccountsModule
with_import = (dispatch_impl demo_json demo_surroundings "import_plog" (some "v" ∷ []) none).1

with_import-HoldsSound : HoldsSound with_import
unfolding dispatch_impl instance_or_default
with_import-HoldsSound =
    Reachable-HoldsSound demo_json demo-AppendLaws demo-VladLaws
      (step demo_surroundings "import_plog" (some "v" ∷ []) start)

abbrev account : PlogAccount
account = record { log = record { demo_vlad = "v"; entries = first_entry ∷ [] }; pending = [] }

hashed : key_from_multibase "v" ≡ ok (118 ∷ [])
unfolding key_from_multibase decode_vlad vlad_hash encode_vlad
hashed = refl

held : view (118 ∷ []) with_import.cache ≡ some (record { account = account; poisoned = false })
unfolding dispatch_impl import_plog Account.import decode_plog summary_from_verified_plog
    get_plog_value Cache.insert key_from_multibase decode_vlad default_module vlad_hash encode_vlad
held = refl

abbrev challenge : UpdateChallenge
challenge = record {
  challenge_id = "ii.";
  vlad = "v";
  kind = delegate;
  path = some "/a/";
  signing_key_path = "/pubkey";
  head_cid = "i.";
  message_multibase = "i.i.";
  message_encoding = "entry-bytes";
}

abbrev committed : AccountSummary
committed = record { vlad = "v"; head_cid = "ii."; pubkey = some "iiiii." }

prepared : (prepare_delegate at_noon "/a/" "k" account).0 ≡ ok challenge
unfolding prepare_delegate parse_branch_path decode_multikey delegate_pubkey_key
    delegated_branch_lock_script list_delegations list_plog_delegations verified_head
    resolve_closest_parent_signing_key sort_by prepare_entry head_entry last_entry
    lock_spec_to_scripts parse_key prepare_next_entry next_spec op_from_params use_key_op
    new_challenge_id vlad pubkey_key_path current_head_cid encode_bytes_multibase encode_vlad
    encode_cid
prepared = refl

done :
    (commit_update 5000 "ii." "1" (prepare_delegate at_noon "/a/" "k" account).1).0
    ≡ ok (committed, delegate, some "/a/")
unfolding prepare_delegate parse_branch_path decode_multikey delegate_pubkey_key
    delegated_branch_lock_script list_delegations list_plog_delegations verified_head
    resolve_closest_parent_signing_key sort_by prepare_entry head_entry last_entry
    lock_spec_to_scripts parse_key prepare_next_entry next_spec op_from_params use_key_op
    new_challenge_id vlad pubkey_key_path current_head_cid encode_bytes_multibase encode_vlad
    encode_cid commit_update decode_multisig commit_with_multisig summary summary_from_verified_plog
    get_plog_value encode_multikey
done = refl

prepare_delegate-Replies_example :
    Replies demo_json demo-KeyLaws at_noon "v" "/a/" "k" account challenge 5000 "1"
      (committed, delegate, some "/a/")
      with_import
prepare_delegate-Replies_example =
    prepare_delegate-Replies demo_json demo-AppendLaws demo-EntryLaws demo-KeyLaws demo-MultikeyLaws
      at_noon "v" "/a/" "k" (118 ∷ []) account challenge 5000 "1" (committed, delegate, some "/a/")
      with_import with_import-HoldsSound hashed held prepared done
