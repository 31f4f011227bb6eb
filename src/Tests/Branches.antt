-- ===== src/Tests/Branches.antt =====
-- The theorems on delegated branches, on a log whose head delegates `/a/`.
use logos_accounts.Prelude.{◌≡◌, refl, ◌≢◌, ◌↔◌, true, none, some, List, [], ◌∷◌, ok, err}
use logos_accounts.Externals.{Entry, Kvp, Script, Value, code, OpId, data_value}
use logos_accounts.Config.{parse_branch_path}
use logos_accounts.Config.Branch.{parse_branch_path_iff}
use logos_accounts.Encoding.{encode_multikey, decode_bytes_multibase}
use logos_accounts.Plog.{verified_head, get_plog_value, parse_key, bin}
use logos_accounts.Error.{path_not_found}
use logos_accounts.Plog.Read.{Stored, Shows, shows_key, get_plog_value_iff}
use logos_accounts.Request.{LockScriptJson}
use logos_accounts.Delegations.{
  PathDelegation, list_plog_delegations, resolve_closest_parent_signing_key,
}
use logos_accounts.Delegations.Closest.{ClosestSigner, resolve-ClosestSigner}
use logos_accounts.Delegations.Listed.{Lists, list_plog_delegations-Lists}
use logos_accounts.Account.{PrepareEntrySpec, assemble}
use logos_accounts.Account.Preparing.{delegate_spec, entry_spec}
use logos_accounts.Account.Policy.{raw_delegation, raw_delegation-delegate_spec}
use logos_accounts.Tests.Demo.{first_entry, demo, DemoEntry, DemoLog}
use logos_accounts.Tests.Accounts.{opened}

abbrev pub lock_a : Script
lock_a = code "/a/" "check_signature(\"/a/pubkey\", \"/entry/\")"

abbrev pub delegating_entry : DemoEntry
delegating_entry = record {
  seqno = 1;
  prev = "i.";
  demo_locks = code "/" "check_signature(\"/pubkey\", \"/entry/\")" ∷ lock_a ∷ [];
  ops =
      record { id = OpId.update; key_path = "/a/pubkey"; value = some (data_value (9 ∷ [])) } ∷ [];
  proof = 1 ∷ [];
}

abbrev pub delegating_log : DemoLog
delegating_log = record { demo_vlad = "vlad"; entries = first_entry ∷ delegating_entry ∷ [] }

abbrev delegating_store : Kvp
delegating_store = ("/pubkey", data_value (5 ∷ [])) ∷ ("/a/pubkey", data_value (9 ∷ [])) ∷ []

abbrev delegating_head : Entry × Kvp
delegating_head = (delegating_entry, delegating_store)

head_read : verified_head delegating_log ≡ ok delegating_head
unfolding verified_head
head_read = refl

parse_branch_path_iff_example : (parse_branch_path "/a/" ≡ ok "/a/") ↔ (
    (demo.key_try_from "/a/" ≡ ok "/a/")
    × (demo.is_branch "/a/" ≡ true)
    × (demo.as_str "/a/" ≢ "/"))
parse_branch_path_iff_example = parse_branch_path_iff "/a/" "/a/"

abbrev listed : List PathDelegation
listed =
    record { path = "/a/"; pubkey = "iiiiiiiii." }
    ∷ record { path = "/a/b/"; pubkey = "i." }
    ∷ record { path = "/c/"; pubkey = "ii." }
    ∷ []

resolve-ClosestSigner_example :
    ClosestSigner "/a/b/c/" listed (resolve_closest_parent_signing_key "/a/b/c/" listed)
resolve-ClosestSigner_example = resolve-ClosestSigner "/a/b/c/" listed

list_plog_delegations-Lists_example :
    (out : List PathDelegation) × (list_plog_delegations delegating_log ≡ ok out)
    × Lists delegating_head out
list_plog_delegations-Lists_example =
    list_plog_delegations-Lists delegating_log delegating_head head_read

get_plog_value_iff_example :
    ((get_plog_value delegating_log "/a/pubkey" ≡ ok (bin "iiiiiiiii."))
      ↔ ((v : Value) × Stored delegating_log "/a/pubkey" (some v) × Shows v (bin "iiiiiiiii.")))
    × ((get_plog_value delegating_log "/a/pubkey" ≡ err (path_not_found "/a/pubkey"))
        ↔ Stored delegating_log "/a/pubkey" none)
get_plog_value_iff_example = get_plog_value_iff delegating_log "/a/pubkey" (bin "iiiiiiiii.")

-- The key that the head delegates to is read, as its encoding.
key_read : get_plog_value delegating_log "/a/pubkey" ≡ ok (bin "iiiiiiiii.")
unfolding encode_multikey
key_read = get_plog_value_iff_example.0.1 (
  data_value (9 ∷ []),
  record {
    key = "/a/pubkey";
    parsed = refl;
    verified = record { nonempty = λ e. cc; all_ok = (tt, (tt, tt)) };
    head = delegating_head;
    last = record { count = 1; last = refl };
    found = refl;
  },
  shows_key {mk = 9 ∷ []} refl,
)

abbrev lock_a_parts : LockScriptJson
lock_a_parts = record { path = "/a/"; source = "check_signature(\"/a/pubkey\", \"/entry/\")" }

raw_delegation-delegate_spec_example :
    (spec : PrepareEntrySpec) × (entry_spec (raw_delegation lock_a_parts "/a/pubkey" "!" "/pubkey")
      ≡ ok spec)
    × (spec.sign_as ≡ "/pubkey")
    × (assemble spec opened
        ≡ assemble (delegate_spec "/a/" "/a/pubkey" (33 ∷ []) lock_a_parts "/pubkey") opened)
unfolding parse_key decode_bytes_multibase
raw_delegation-delegate_spec_example =
    raw_delegation-delegate_spec opened "/a/" "/a/pubkey" "/pubkey" (33 ∷ []) lock_a_parts
      "/a/pubkey" "!" "/pubkey" refl refl refl
