-- ===== src/Tests/Commits.antt =====
-- The theorems on challenges and commits, on the small libraries.
use logos_accounts.Prelude.{◌≡◌, refl, none, some, string_eq, [], ◌∷◌, ok, err, arith}
use logos_accounts.Error.{challenge_not_found}
use logos_accounts.EntryUpdate.{
  UnsignedUpdate, last_entry, prepare_next_entry, commit_with_multisig,
}
use logos_accounts.Encoding.{
  encode_bytes_multibase, encode_vlad, encode_cid, encode_multikey, decode_multisig,
}
use logos_accounts.Plog.{summary_from_verified_plog, get_plog_value, AccountSummary}
use logos_accounts.Request.{lock_spec_to_scripts}
use logos_accounts.Account.{
  prepare_entry, entry_update, new_challenge_id, assemble, purge_expired_challenges, head_entry,
  next_spec, current_head_cid,
}
use logos_accounts.Account.Committing.{commit_update}
use logos_accounts.Account.Invariant.{IsValid}
use logos_accounts.Account.Methods.{prepare_entry-IsValid}
use logos_accounts.Account.Atomic.{commit_update-Ends, Ends}
use logos_accounts.Account.Append.{commit_update-prepare_entry}
use logos_accounts.Account.Challenge.{
  commit_update-IsValid, commit_update_twice, commit_update_expired,
}
use logos_accounts.Tests.Laws.{demo-AppendLaws, opened_log-IsVerified}
use logos_accounts.Tests.Demo.{first_entry, demo, DemoLog}
use logos_accounts.Tests.Accounts.{second_entry, opened, at_noon, touch, waiting, pending_touch}

opened-IsValid : IsValid opened
opened-IsValid = record { distinct = tt; fresh = λ id p h. cc }

abbrev unsigned : UnsignedUpdate
unsigned = record { entry = second_entry; signing_bytes = 1 ∷ 0 ∷ [] }

abbrev signed_log : DemoLog
signed_log = record {
  demo_vlad = "vlad";
  entries = first_entry ∷ record second_entry { proof = 49 ∷ [] } ∷ [];
}

abbrev signed_summary : AccountSummary
signed_summary = record { vlad = "vlad"; head_cid = "ii."; pubkey = some "iiiii." }

touch-assembled : assemble touch (purge_expired_challenges 1000 opened) ≡ ok unsigned
unfolding assemble purge_expired_challenges head_entry last_entry lock_spec_to_scripts
    prepare_next_entry next_spec
touch-assembled = refl

commit_update-prepare_entry_example :
    commit_update 5000 "ii." "1" (prepare_entry at_noon touch opened).1
    ≡ (ok (signed_summary, entry_update, none), record { log = signed_log; pending = [] })
unfolding commit_with_multisig summary_from_verified_plog new_challenge_id decode_multisig
    get_plog_value encode_bytes_multibase encode_vlad encode_cid encode_multikey
commit_update-prepare_entry_example =
    commit_update-prepare_entry at_noon touch 5000 "1" opened-IsValid touch-assembled (omega arith)
      refl refl refl

commit_update-Ends_example : Ends 5000 "ii." waiting (commit_update 5000 "ii." "1" waiting)
commit_update-Ends_example =
    commit_update-Ends demo-AppendLaws {key = "/pubkey"} refl 5000 "ii." "1" waiting
      opened_log-IsVerified

waiting-IsValid : IsValid waiting
unfolding new_challenge_id encode_bytes_multibase encode_cid prepare_entry head_entry last_entry
    lock_spec_to_scripts prepare_next_entry next_spec current_head_cid
waiting-IsValid = prepare_entry-IsValid at_noon touch opened-IsValid

commit_update-IsValid_example : IsValid (commit_update 5000 "ii." "1" waiting).1
commit_update-IsValid_example = commit_update-IsValid demo-AppendLaws 5000 "ii." "1" waiting-IsValid

commit_update_twice_example :
    (commit_update 6000 "ii." "2" (commit_update 5000 "ii." "1" waiting).1).0
    ≡ err (challenge_not_found "ii.")
commit_update_twice_example = commit_update_twice 5000 6000 "ii." "1" "2" waiting

commit_update_expired_example :
    (commit_update 900000001001 "ii." "1" waiting).0 ≡ err (challenge_not_found "ii.")
commit_update_expired_example =
    commit_update_expired 900000001001 "ii." "1" waiting pending_touch (refl, tt) refl (omega arith)
