-- ===== src/Provider/Opened.antt =====
-- The methods that add accounts and take them away keep what the module holds sound.
use logos_accounts.Prelude.{
  String, ◌≡◌, refl, subst, Bool-cases, false, inl, inr, some, Result, ok, err, arith, ◌==◌,
  bytes_eq, ==_iff, >>=-eq-ok,
}
use logos_accounts.Error.{Error}
use logos_accounts.Externals.{Externals, Log}
use logos_accounts.Externals.Laws.{VladLaws}
use logos_accounts.Encoding.{decode_multikey, decode_plog}
use logos_accounts.Encoding.Hex.{vlad_hash}
use logos_accounts.EphemeralOpen.{OpenPlog, KeyGeneration, open_plog_with_external_pubkey}
use logos_accounts.Plog.{AccountSummary}
use logos_accounts.Account.{Ambient, PlogAccount, verified_account}
use logos_accounts.Account as Account
use logos_accounts.Cache.{
  VladHash, Ref, Cell, AccountCache, get_cell, key_from_multibase, insert_by_hash,
}
use logos_accounts.Cache as Cache
use logos_accounts.Cache.View as View
use logos_accounts.Cache.View.{view}
use logos_accounts.Provider.{Json, AccountsModule}
use logos_accounts.Provider.Logs.{
  insert_opened, inserted_reply, created_reply, imported_reply, removed_reply, create_account,
  import_plog, remove_plog, clear_cache,
}
use logos_accounts.Provider.Held.{IsSound, HoldsSound, verified_account-IsSound}

module _ ⦃x : Externals⦄ (json : Json) where
  open x use {log_vlad}

  insert_by_hash-HoldsSound :
      (hash : VladHash) (account : PlogAccount) (m : AccountsModule)
      → IsSound hash account
      → HoldsSound m
      → HoldsSound (record m { cache = insert_by_hash hash account m.cache })
  insert_by_hash-HoldsSound hash account m a s = record {
    valid = View.insert_by_hash-IsValid hash account s.valid;
    sound = λ h c e. elim (Bool-cases (hash == h)) [
      | inl same ↦
          let new : some (record { account = account; poisoned = false }) ≡ some c =
            rw (View.view-insert_by_hash hash h account s.valid, same) at e in
          let is : record { account = account; poisoned = false } ≡ c = cc in
          rw (← is) (subst (λ k. IsSound k account) ((==_iff hash h).0 same) a)
      | inr differ ↦ s.sound h c (rw (View.view-insert_by_hash hash h account s.valid, differ) at e)
    ];
  }

  -- The log that was opened or imported, and the account made of it.
  abbrev Opened : PlogAccount → AccountSummary → Type 0
  Opened account summary = (log : Log) × (verified_account log ≡ ok (account, summary))

  insert_opened-HoldsSound :
      VladLaws
      → (account : PlogAccount) (summary : AccountSummary) (m : AccountsModule)
      → Opened account summary
      → HoldsSound m
      → HoldsSound (insert_opened json summary account m).1
  insert_opened-HoldsSound laws account summary m (log, opened) s =
      let (decoded, sound) = verified_account-IsSound laws log account summary opened in
      let hash = vlad_hash (log_vlad log) in
      let hashed : key_from_multibase summary.vlad ≡ ok hash =
        unfold key_from_multibase in rw decoded refl in
      let inserted : Cache.insert summary.vlad account m.cache
          ≡ ok (insert_by_hash hash account m.cache) =
        unfold Cache.insert in rw hashed refl in
      unfold insert_opened in
      rw (inserted, inserted_reply) (insert_by_hash-HoldsSound hash account m sound s)

  create-Opened :
      (open_plog : OpenPlog) (gen : KeyGeneration) (pubkey : String) (account : PlogAccount)
      (summary : AccountSummary)
      → Account.create open_plog gen pubkey ≡ ok (account, summary)
      → Opened account summary
  unfolding Account.create
  create-Opened open_plog gen pubkey account summary h =
      let (mk, decoded, rest) = >>=-eq-ok (decode_multikey pubkey) _ h in
      let (log, opened, made) =
        >>=-eq-ok (open_plog_with_external_pubkey open_plog gen mk) verified_account rest in
      (log, made)

  import-Opened :
      (plog : String) (account : PlogAccount) (summary : AccountSummary)
      → Account.import plog ≡ ok (account, summary)
      → Opened account summary
  unfolding Account.import
  import-Opened plog account summary h =
      let (log, decoded, made) = >>=-eq-ok (decode_plog plog) _ h in (log, made)

  created-HoldsSound :
      VladLaws
      → (r : Result (PlogAccount × AccountSummary) Error) (m : AccountsModule)
      → ((account : PlogAccount) (summary : AccountSummary)
          → r ≡ ok (account, summary)
          → Opened account summary)
      → HoldsSound m
      → HoldsSound (created_reply json r m).1 × HoldsSound (imported_reply json r m).1
  unfolding created_reply imported_reply
  created-HoldsSound laws (ok (account, summary)) m from s =
      let after = insert_opened-HoldsSound laws account summary m (from account summary refl) s in
      (after, after)
  created-HoldsSound laws (err e) m from s = (s, s)

  pub create_account-HoldsSound :
      VladLaws
      → (open_plog : OpenPlog) (gen : KeyGeneration) (pubkey : String) (m : AccountsModule)
      → HoldsSound m
      → HoldsSound (create_account json open_plog gen pubkey m).1
  unfolding create_account
  create_account-HoldsSound laws open_plog gen pubkey m s =
      (created-HoldsSound laws _ m (create-Opened open_plog gen pubkey) s).0

  pub import_plog-HoldsSound :
      VladLaws
      → (plog : String) (m : AccountsModule) → HoldsSound m
      → HoldsSound (import_plog json plog m).1
  unfolding import_plog
  import_plog-HoldsSound laws plog m s = (created-HoldsSound laws _ m (import-Opened plog) s).1

  removed-HoldsSound :
      (vlad : String) (m : AccountsModule) (cache : AccountCache)
      → Cache.remove vlad m.cache ≡ ok cache
      → HoldsSound m
      → HoldsSound (record m { cache = cache })
  unfolding Cache.remove
  removed-HoldsSound vlad m cache e s =
      let (hash, hashed, gone) = >>=-eq-ok (key_from_multibase vlad) _ e in
      record {
        valid = View.remove_by_hash-IsValid hash m.cache cache s.valid gone;
        sound = λ h c found.
            s.sound h c (ground (arith, found, View.view-remove_by_hash hash h m.cache cache gone));
      }

  removed_reply-HoldsSound :
      (r : Result AccountCache Error) (m : AccountsModule)
      → ((cache : AccountCache) → r ≡ ok cache → HoldsSound (record m { cache = cache }))
      → HoldsSound m
      → HoldsSound (removed_reply json r m).1
  unfolding removed_reply
  removed_reply-HoldsSound (ok cache) m after s = after cache refl
  removed_reply-HoldsSound (err e) m after s = s

  pub remove_plog-HoldsSound :
      (vlad : String) (m : AccountsModule) → HoldsSound m → HoldsSound (remove_plog json vlad m).1
  unfolding remove_plog
  remove_plog-HoldsSound vlad m s =
      removed_reply-HoldsSound (Cache.remove vlad m.cache) m
        (λ cache e. removed-HoldsSound vlad m cache e s) s

  pub clear_cache-HoldsSound : (m : AccountsModule) → HoldsSound (clear_cache json m).1
  unfolding clear_cache Cache.clear
  clear_cache-HoldsSound m = record { valid = View.clear-IsValid m.cache; sound = λ h c e. cc }
