-- ===== src/Tests/Sessions.antt =====
-- The theorems on the module's methods, on a module that holds one account.
use logos_accounts.Prelude.{
  ◌>>=◌, ◌≡◌, refl, false, Option, none, some, [], ◌∷◌, ok, err, here, bytes_eq,
}
use logos_accounts.Externals.{Log}
use logos_accounts.Error.{message}
use logos_accounts.Account as Account
use logos_accounts.Account.Committing as Committing
use logos_accounts.Encoding.{
  decode_plog, encode_plog, encode_multikey, decode_vlad, encode_vlad, encode_cid, decode_multisig,
}
use logos_accounts.Encoding.Hex.{vlad_hash}
use logos_accounts.EntryUpdate.{commit_with_multisig}
use logos_accounts.Plog.{AccountSummary, summary_from_verified_plog, get_plog_value}
use logos_accounts.Cache as Cache
use logos_accounts.Cache.{
  new_cache, AccountCache, Cell, insert_by_hash, key_from_multibase, VladHash,
}
use logos_accounts.Cache.View as View
use logos_accounts.Cache.View.{view, view-insert_by_hash}
use logos_accounts.Account.{PlogAccount}
use logos_accounts.Provider.{Json, AccountsModule, silent}
use logos_accounts.Provider.Logs.{import_plog, export_plog}
use logos_accounts.Provider.Updates.{commit_update}
use logos_accounts.Provider.Held.{HoldsSound}
use logos_accounts.Provider.Announced.{Updated, commit_update-Updated}
use logos_accounts.Dispatch.{Surroundings, dispatch_impl, instance_or_default}
use logos_accounts.Provider.Exported.{import_plog-export_plog}
use logos_accounts.Config.{default_open_config, pubkey_key_path}
use logos_accounts.EphemeralOpen.{
  open_plog_with_external_pubkey, OpenPlog, KeyGeneration, KeyManager, MultiSigner,
}
use logos_accounts.EphemeralOpen.Root.{IsPublicOnly, open_plog_with_external_pubkey-IsPublicOnly}
use logos_accounts.Dispatch.Sessions.{start, step, Reachable-HoldsSound}
use logos_accounts.Tests.Demo.{first_entry, text_of, demo}
use logos_accounts.Tests.Laws.{demo-PublicLaws, demo-AppendLaws, demo-VladLaws}
use logos_accounts.Tests.Accounts.{waiting, at_noon}

abbrev pub demo_json : Json
demo_json = record {
  object_text = λ key text. text;
  flag_text = λ key flag. key;
  count_text = λ key n. key;
  summary_text = λ s. ok s.head_cid;
  challenge_text = λ c. ok c.challenge_id;
  delegations_text = λ ds. ok "delegations";
  value_text = λ v. ok "value";
  poison_text = "poisoned";
}

abbrev pub demo_surroundings : Surroundings
demo_surroundings = record {
  open_plog = λ config keys signer. err (message "no log");
  gen = record {
    generate = λ codec threshold limit. err (message "no key");
    sign = λ secret bytes. err (message "no signature");
  };
  from_str = λ text. err "no request";
  env = at_noon;
  now = 5000;
}

-- An import, and then a revocation of the branch `/a/`.
abbrev slot : Option AccountsModule
slot =
    some
      (dispatch_impl demo_json demo_surroundings "prepare_revoke" (some "v" ∷ some "/a/" ∷ [])
        (some (dispatch_impl demo_json demo_surroundings "import_plog" (some "v" ∷ []) none).1)).1

Reachable-HoldsSound_example : HoldsSound (instance_or_default slot)
Reachable-HoldsSound_example = Reachable-HoldsSound demo_json demo-AppendLaws demo-VladLaws (
    step demo_surroundings "prepare_revoke" (some "v" ∷ some "/a/" ∷ [])
      (step demo_surroundings "import_plog" (some "v" ∷ []) start))

abbrev cache_of : PlogAccount → AccountCache
cache_of account = record {
  entries = (118 ∷ [], 0) ∷ [];
  cells = record { account = account; poisoned = false } ∷ [];
}

abbrev pub holding : PlogAccount → AccountsModule
holding account = record { cache = cache_of account }

pub cache_of-IsValid : (account : PlogAccount) → View.IsValid (cache_of account)
unfolding insert_by_hash new_cache
cache_of-IsValid account = View.insert_by_hash-IsValid (118 ∷ []) account View.new_cache-IsValid

commit_update-Updated_example :
    Updated demo_json "v" "ii." (commit_update demo_json 5000 "v" "ii." "1" (holding waiting)).1
unfolding commit_update Cache.get key_from_multibase decode_vlad vlad_hash encode_vlad
    Committing.commit_update Account.current_head_cid encode_cid decode_multisig
    commit_with_multisig Account.summary summary_from_verified_plog get_plog_value
commit_update-Updated_example =
    commit_update-Updated demo_json 5000 "v" "ii." "1" "ii." (holding waiting)
      (cache_of-IsValid waiting) (here refl)

abbrev imported : PlogAccount
imported = record { log = record { demo_vlad = "w"; entries = first_entry ∷ [] }; pending = [] }

abbrev imported_summary : AccountSummary
imported_summary = record { vlad = "w"; head_cid = "i."; pubkey = some "iiiii." }

import_plog-export_plog_example :
    (log : Log) × (decode_plog "w" ≡ ok log)
    × ((export_plog demo_json "w" (import_plog demo_json "w" (holding waiting)).1).0
        ≡ silent demo_json (encode_plog log))
unfolding Account.import decode_plog summary_from_verified_plog get_plog_value encode_vlad
    encode_cid encode_multikey
import_plog-export_plog_example =
    import_plog-export_plog demo_json demo-VladLaws "w" imported imported_summary (holding waiting)
      (cache_of-IsValid waiting) refl

-- A library whose opening returns a log with the key that the manager gives for `/pubkey`.
abbrev opening : OpenPlog
opening config keys signer =
    keys.get_key "/pubkey" 1 1 1 >>= λ k. ok (record { demo_vlad = text_of k; entries = [] })

abbrev demo_gen : KeyGeneration
demo_gen = demo_surroundings.gen

open_plog_with_external_pubkey-IsPublicOnly_example :
    (keys : KeyManager) × (signer : MultiSigner) × IsPublicOnly keys signer
    × (opening default_open_config keys signer ≡ ok (record { demo_vlad = "i."; entries = [] }))
unfolding open_plog_with_external_pubkey pubkey_key_path
open_plog_with_external_pubkey-IsPublicOnly_example =
    open_plog_with_external_pubkey-IsPublicOnly demo-PublicLaws opening demo_gen (7 ∷ [])
      (record { demo_vlad = "i."; entries = [] }) refl
