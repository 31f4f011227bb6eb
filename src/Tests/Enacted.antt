-- ===== src/Tests/Enacted.antt =====
-- The theorems on committed delegations and revocations, on the small libraries.
use logos_accounts.Prelude.{
  String, ◌≡◌, refl, ◌∙◌, true, Bool-cases, inl, inr, some, List, [], ◌∷◌, ◌++◌, ok, arith,
  get_last?, string_eq, ==_refl,
}
use logos_accounts.Prelude.Dict.{insert, lookup-insert}
use logos_accounts.Externals.{Value, OpBuilder}
use logos_accounts.Externals.EntryLaws.{EntryLaws, MultikeyLaws}
use logos_accounts.Externals.Laws.{IsVerified}
use logos_accounts.Account.{
  UpdateChallenge, PlogAccount, vlad, summary, delegate, revoke, prepare_entry, head_entry,
  next_spec, list_delegations, current_head_cid, new_challenge_id,
}
use logos_accounts.Account.Preparing.{prepare_delegate, prepare_revoke}
use logos_accounts.Account.Committing.{commit_update}
use logos_accounts.Account.Invariant.{IsValid}
use logos_accounts.Account.Enact.Delegated.{Delegated, prepare_delegate-Delegated}
use logos_accounts.Account.Enact.Revoked.{Revoked, prepare_revoke-Revoked}
use logos_accounts.Prelude.Sort.{sort_by}
use logos_accounts.Config.{
  parse_branch_path, delegate_pubkey_key, delegated_branch_lock_script, pubkey_key_path,
}
use logos_accounts.Encoding.{
  decode_multikey, decode_multisig, encode_bytes_multibase, encode_vlad, encode_cid,
  encode_multikey,
}
use logos_accounts.EntryUpdate.{
  last_entry, prepare_next_entry, commit_with_multisig, use_key_op, op_from_params,
}
use logos_accounts.Delegations.{list_plog_delegations, resolve_closest_parent_signing_key}
use logos_accounts.Request.{lock_spec_to_scripts}
use logos_accounts.Plog.{
  AccountSummary, verified_head, parse_key, summary_from_verified_plog, get_plog_value,
}
use logos_accounts.Tests.Demo.{demo, DemoEntry, has_proof, verify_from, apply_ops}
use logos_accounts.Tests.Laws.{demo-AppendLaws, demo-KeyLaws, opened_log-IsVerified}
use logos_accounts.Tests.Branches.{delegating_log}
use logos_accounts.Tests.Accounts.{opened, at_noon}

abbrev Store : Type 0
Store = List (String × Value)

snoc_last :
    (kvp : Store) (es : List DemoEntry) (e : DemoEntry)
    → has_proof e ≡ true
    → (after : Store) × (get_last? (verify_from kvp (es ++ e ∷ [])) ≡ some (ok (1, e, after)))
snoc_last kvp [] e p = (apply_ops e.ops kvp, rw p refl)
snoc_last kvp (e' ∷ []) e p = snoc_last (apply_ops e'.ops kvp) [] e p
snoc_last kvp (e' ∷ e'' ∷ es) e p = snoc_last (apply_ops e'.ops kvp) (e'' ∷ es) e p

last_store :
    (kvp : Store) (es : List DemoEntry) (n : _) (e : DemoEntry) (after : Store)
    → get_last? (verify_from kvp es) ≡ some (ok (n, e, after))
    → (before : Store) × (after ≡ apply_ops e.ops before)
last_store kvp [] n e after h = absurd (cc)
last_store kvp (e' ∷ []) n e after h = elim (Bool-cases (has_proof e')) [
  | inl p ↦ (kvp, ground (arith, h, p))
  | inr p ↦ absurd (ground (arith, h, p))
]
last_store kvp (e' ∷ e'' ∷ es) n e after h =
    last_store (apply_ops e'.ops kvp) (e'' ∷ es) n e after h

apply_ops-append :
    (ops : List (OpBuilder String)) (o : OpBuilder String) (kvp : Store)
    → apply_ops (ops ++ o ∷ []) kvp ≡ apply_ops (o ∷ []) (apply_ops ops kvp)
apply_ops-append [] o kvp = refl
apply_ops-append (p ∷ ops) o kvp = apply_ops-append ops o _

pub demo-EntryLaws : EntryLaws
demo-EntryLaws = record {
  draft_locks = λ m. m.demo_locks;
  draft_ops = λ m. m.ops;
  entry_ops = λ e. e.ops;
  content = λ o. o;
  locks-build = λ d. refl;
  ops-build = λ d. refl;
  locks-add_op = λ m o. refl;
  ops-add_op = λ m o. refl;
  locks-with_lipmaa = λ m c. refl;
  ops-with_lipmaa = λ m c. refl;
  content-op_try_build = λ b o h. ground (arith, h);
  locks-unsigned = λ m e h. ground (arith, h);
  ops-unsigned = λ m e h. ground (arith, h);
  locks-proof = λ e e' p h. ground (arith, h);
  ops-proof = λ e e' p h. ground (arith, h);
  appended_last = λ log log' e v h. elim (Bool-cases (has_proof e)) [
    | inr p ↦ absurd (ground (arith, p, h))
    | inl p ↦
        let same : record log { entries = log.entries ++ e ∷ [] } ≡ log' = ground (arith, p, h) in
        let (after, last) = snoc_last [] log.entries e p in
        (after, rw (← same) (record { count = 1; last = last }))
  ];
  updated = λ log e kvp ops o k v ends has says.
      let (before, is) = last_store [] log.entries ends.count e kvp ends.last in
      let written : apply_ops (o ∷ []) (apply_ops ops before) ≡ insert k v (apply_ops ops before) =
        rw says refl in
      rw (is, has, apply_ops-append ops o before, written)
        (lookup-insert k k v (apply_ops ops before) ∙ (rw (==_refl k) refl));
}

pub demo-MultikeyLaws : MultikeyLaws
demo-MultikeyLaws = record { bytes_back = λ mk. refl }

pub opened-IsValid : IsValid opened
opened-IsValid = record { distinct = tt; fresh = λ id p h. cc }

abbrev pub delegating : UpdateChallenge
delegating = record {
  challenge_id = "ii.";
  vlad = "vlad";
  kind = delegate;
  path = some "/a/";
  signing_key_path = "/pubkey";
  head_cid = "i.";
  message_multibase = "i.i.";
  message_encoding = "entry-bytes";
}

pub delegation_prepared : (prepare_delegate at_noon "/a/" "k" opened).0 ≡ ok delegating
unfolding prepare_delegate parse_branch_path decode_multikey delegate_pubkey_key
    delegated_branch_lock_script list_delegations list_plog_delegations verified_head
    resolve_closest_parent_signing_key sort_by prepare_entry head_entry last_entry
    lock_spec_to_scripts parse_key prepare_next_entry next_spec op_from_params use_key_op
    new_challenge_id vlad pubkey_key_path current_head_cid encode_bytes_multibase encode_vlad
    encode_cid
delegation_prepared = refl

abbrev pub delegated_summary : AccountSummary
delegated_summary = record { vlad = "vlad"; head_cid = "ii."; pubkey = some "iiiii." }

pub delegation_committed :
    (commit_update 5000 "ii." "1" (prepare_delegate at_noon "/a/" "k" opened).1).0
    ≡ ok (delegated_summary, delegate, some "/a/")
unfolding prepare_delegate parse_branch_path decode_multikey delegate_pubkey_key
    delegated_branch_lock_script list_delegations list_plog_delegations verified_head
    resolve_closest_parent_signing_key sort_by prepare_entry head_entry last_entry
    lock_spec_to_scripts parse_key prepare_next_entry next_spec op_from_params use_key_op
    new_challenge_id vlad pubkey_key_path current_head_cid encode_bytes_multibase encode_vlad
    encode_cid commit_update decode_multisig commit_with_multisig summary summary_from_verified_plog
    get_plog_value encode_multikey
delegation_committed = refl

prepare_delegate-Delegated_example :
    Delegated demo-KeyLaws "/a/" "k" opened
      (commit_update 5000 "ii." "1" (prepare_delegate at_noon "/a/" "k" opened).1).1
prepare_delegate-Delegated_example =
    prepare_delegate-Delegated demo-AppendLaws demo-EntryLaws demo-KeyLaws demo-MultikeyLaws at_noon
      "/a/" "k" opened delegating 5000 "1" (delegated_summary, delegate, some "/a/") opened-IsValid
      opened_log-IsVerified delegation_prepared delegation_committed

-- An account whose head delegates `/a/`.
abbrev delegated : PlogAccount
delegated = record { log = delegating_log; pending = [] }

delegated-IsValid : IsValid delegated
delegated-IsValid = record { distinct = tt; fresh = λ id p h. cc }

delegating_log-IsVerified : IsVerified delegating_log
delegating_log-IsVerified = record { nonempty = λ e. cc; all_ok = (tt, (tt, tt)) }

abbrev pub revoking : UpdateChallenge
revoking = record {
  challenge_id = "ii.";
  vlad = "vlad";
  kind = revoke;
  path = some "/a/";
  signing_key_path = "/pubkey";
  head_cid = "ii.";
  message_multibase = "ii.i.";
  message_encoding = "entry-bytes";
}

revocation_prepared : (prepare_revoke at_noon "/a/" delegated).0 ≡ ok revoking
unfolding prepare_revoke parse_branch_path decode_multikey delegate_pubkey_key
    delegated_branch_lock_script list_delegations list_plog_delegations verified_head
    resolve_closest_parent_signing_key sort_by prepare_entry head_entry last_entry
    lock_spec_to_scripts parse_key prepare_next_entry next_spec op_from_params use_key_op
    new_challenge_id vlad pubkey_key_path current_head_cid encode_bytes_multibase encode_vlad
    encode_cid
revocation_prepared = refl

revocation_committed :
    (commit_update 5000 "ii." "1" (prepare_revoke at_noon "/a/" delegated).1).0
    ≡ ok (record delegated_summary { head_cid = "iii." }, revoke, some "/a/")
unfolding prepare_revoke parse_branch_path decode_multikey delegate_pubkey_key
    delegated_branch_lock_script list_delegations list_plog_delegations verified_head
    resolve_closest_parent_signing_key sort_by prepare_entry head_entry last_entry
    lock_spec_to_scripts parse_key prepare_next_entry next_spec op_from_params use_key_op
    new_challenge_id vlad pubkey_key_path current_head_cid encode_bytes_multibase encode_vlad
    encode_cid commit_update decode_multisig commit_with_multisig summary summary_from_verified_plog
    get_plog_value encode_multikey
revocation_committed = refl

prepare_revoke-Revoked_example :
    Revoked demo-KeyLaws "/a/" delegated
      (commit_update 5000 "ii." "1" (prepare_revoke at_noon "/a/" delegated).1).1
prepare_revoke-Revoked_example =
    prepare_revoke-Revoked demo-AppendLaws demo-EntryLaws demo-KeyLaws at_noon "/a/" delegated
      revoking 5000 "1" (record delegated_summary { head_cid = "iii." }, revoke, some "/a/")
      delegated-IsValid delegating_log-IsVerified revocation_prepared revocation_committed
