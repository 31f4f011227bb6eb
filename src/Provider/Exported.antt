-- ===== src/Provider/Exported.antt =====
-- An imported log is there to be exported.
use logos_accounts.Prelude.{
  String, ◌≡◌, refl, ap, ◌∙◌, false, inl, inr, some, Option-cases, ok, arith, >>=-eq-ok, bytes_eq,
  ==_refl,
}
use logos_accounts.Prelude.Dict.{lookup}
use logos_accounts.Externals.{Externals, Log}
use logos_accounts.Externals.Laws.{VladLaws}
use logos_accounts.Encoding.{decode_plog, encode_plog}
use logos_accounts.Encoding.Hex.{vlad_hash}
use logos_accounts.Plog.{AccountSummary}
use logos_accounts.Account.{PlogAccount, verified_account}
use logos_accounts.Account as Account
use logos_accounts.Cache.{VladHash, Ref, get_cell, key_from_multibase, insert_by_hash}
use logos_accounts.Cache as Cache
use logos_accounts.Cache.View as View
use logos_accounts.Cache.View.{view}
use logos_accounts.Provider.{
  Json, AccountsModule, entry, locked, lock_cell, run_on, with_account_mut, silent,
}
use logos_accounts.Provider.Logs.{
  insert_opened, inserted_reply, imported_reply, import_plog, export_plog,
}
use logos_accounts.Provider.Held.{verified_account-IsSound, verified_account_ok}

module _ ⦃x : Externals⦄ (json : Json) where
  open x use {log_vlad}

  -- What the cache holds under a text's hash is what a method locks.
  pub view-locked :
      (vlad : String) (m : AccountsModule) {hash : VladHash} {account : PlogAccount}
      → key_from_multibase vlad ≡ ok hash
      → view hash m.cache ≡ some (record { account = account; poisoned = false })
      → (r : Ref) × (locked json vlad m ≡ ok (r, account))
  unfolding locked entry lock_cell Cache.get
  view-locked vlad m {hash} {account} hashed held =
      elim (Option-cases (lookup hash m.cache.entries)) [
        | inl absent ↦ absurd (ground (arith, absent, held))
        | inr (r, present) ↦
            let cell : get_cell r m.cache.cells
                ≡ some (record { account = account; poisoned = false }) =
              rw present at held in
            (r, (rw (hashed, present, cell) refl))
      ]

  insert_opened-view :
      VladLaws
      → (log : Log) (account : PlogAccount) (s : AccountSummary) (m : AccountsModule)
      → View.IsValid m.cache
      → verified_account log ≡ ok (account, s)
      → (r : Ref) × (locked json s.vlad (insert_opened json s account m).1 ≡ ok (r, account))
  insert_opened-view laws log account s m v opened =
      let (decoded, sound) = verified_account-IsSound laws log account s opened in
      let hash = vlad_hash (log_vlad log) in
      let hashed : key_from_multibase s.vlad ≡ ok hash =
        unfold key_from_multibase in rw decoded refl in
      let inserted : Cache.insert s.vlad account m.cache
          ≡ ok (insert_by_hash hash account m.cache) =
        unfold Cache.insert in rw hashed refl in
      let held : view hash (insert_by_hash hash account m.cache)
          ≡ some (record { account = account; poisoned = false }) =
        View.view-insert_by_hash hash hash account v ∙ (rw (==_refl hash) refl) in
      unfold insert_opened in
      rw (inserted, inserted_reply)
        (view-locked s.vlad (record m { cache = insert_by_hash hash account m.cache }) hashed held)

  import-opened :
      (plog : String) (account : PlogAccount) (s : AccountSummary)
      → Account.import plog ≡ ok (account, s)
      → (log : Log) × (decode_plog plog ≡ ok log) × (verified_account log ≡ ok (account, s))
  unfolding Account.import
  import-opened plog account s h =
      let (log, decoded, made) = >>=-eq-ok (decode_plog plog) _ h in (log, decoded, made)

  -- In a module with a valid cache: if a text imports as an account, then after the import an export
  -- under the VLAD of the summary returns, with no event, the encoding of the log that the text
  -- decodes to. This uses that a VLAD's text decodes to it.
  pub import_plog-export_plog :
      VladLaws
      → (plog : String) (account : PlogAccount) (s : AccountSummary) (m : AccountsModule)
      → View.IsValid m.cache
      → Account.import plog ≡ ok (account, s)
      → (log : Log) × (decode_plog plog ≡ ok log)
        × ((export_plog json s.vlad (import_plog json plog m).1).0 ≡ silent json (encode_plog log))
  import_plog-export_plog laws plog account s m v imported =
      let (log, decoded, opened) = import-opened plog account s imported in
      let (r, found) = insert_opened-view laws log account s m v opened in
      let same = (verified_account_ok log account s opened).1 in
      (
        log,
        decoded,
        (unfold export_plog import_plog with_account_mut Account.export_plog in
            rw (imported, imported_reply, found, run_on)
              (ap (λ a. silent json (encode_plog a.log)) same)),
      )
