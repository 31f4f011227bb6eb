-- ===== src/Account/Enact/Prepared.antt =====
-- What a prepared challenge came from, and the head that ends a log.
use logos_accounts.Prelude.{String, ◌≡◌, refl, Option, Result, ok, err, string_eq}
use logos_accounts.Error.{Error}
use logos_accounts.Externals.{Externals, Entry, Kvp, key_instance}
use logos_accounts.Externals.EntryLaws.{EndsWith}
use logos_accounts.EntryUpdate.{last_entry}
use logos_accounts.Plog.{AccountSummary}
use logos_accounts.Account.{
  Ambient, PrepareEntrySpec, PlogAccount, UpdateChallenge, UpdateKind, head_entry,
}
use logos_accounts.Account.Specs.{prepared}

module _ ⦃x : Externals⦄ where
  open x use {key_to_string, locks, script_path, is_branch, as_str}

  pub prepared-ok :
      (env : Ambient) (r : Result PrepareEntrySpec Error) (account : PlogAccount)
      (c : UpdateChallenge)
      → (prepared env r account).0 ≡ ok c
      → (spec : PrepareEntrySpec) × (r ≡ ok spec)
  prepared-ok env (ok spec) account c h = (spec, refl)
  prepared-ok env (err e) account c h = absurd (cc)

  pub EndsWith-head_entry :
      (account : PlogAccount) (entry : Entry) (kvp : Kvp)
      → EndsWith account.log entry kvp
      → head_entry account ≡ ok entry
  unfolding head_entry last_entry
  EndsWith-head_entry account entry kvp ends = rw ends.last refl

  abbrev pub Done : Type 0
  Done = AccountSummary × UpdateKind × Option String
