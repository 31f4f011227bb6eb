-- ===== src/Provider/Held.antt =====
-- What the module holds: verified accounts, each under the hash of its own VLAD.
use logos_accounts.Prelude.{
  ℕ, String, ◌≡◌, refl, inl, inr, some, [], Result, ok, arith, Result-cases, bytes_eq, >>=-eq-ok,
}
use logos_accounts.Error.{Error}
use logos_accounts.Externals.{Externals, Log}
use logos_accounts.Externals.Laws.{AppendLaws, VladLaws, IsVerified}
use logos_accounts.Encoding.{encode_vlad, decode_vlad}
use logos_accounts.Encoding.Hex.{vlad_hash}
use logos_accounts.Plog.{
  AccountSummary, summary_from_verified_plog, ensure_plog_verified, optional_pubkey, get_plog_value,
}
use logos_accounts.Plog.Verify.{ensure_plog_verified_iff}
use logos_accounts.Account.{Ambient, PrepareEntrySpec, PlogAccount, verified_account}
use logos_accounts.Account.Committing.{commit_update, cancel_update}
use logos_accounts.Account.Invariant as Invariant
use logos_accounts.Account.Specs.{prepared}
use logos_accounts.Account.Methods.{prepared-IsValid}
use logos_accounts.Account.Challenge.{commit_update-IsValid, cancel_update-IsValid}
use logos_accounts.Account.Trust.{commit_update-IsVerified, prepared-log, cancel_update-log}
use logos_accounts.Cache.{VladHash, Cell}
use logos_accounts.Cache.View as View
use logos_accounts.Cache.View.{view}
use logos_accounts.Provider.{AccountsModule}

module _ ⦃x : Externals⦄ where
  open x use {log_vlad}

  -- The account's log verifies and is that of the VLAD with this hash, and its challenges are
  -- fresh.
  pub record IsSound (h : VladHash) (account : PlogAccount) : Type 0 where
    pub verified : IsVerified account.log
    pub filed : vlad_hash (log_vlad account.log) ≡ h
    pub valid : Invariant.IsValid account

  pub record HoldsSound (m : AccountsModule) : Type 0 where
    pub valid : View.IsValid m.cache
    pub sound : (h : VladHash) (c : Cell) → view h m.cache ≡ some c → IsSound h c.account

  summary-verified :
      (log : Log) (s : AccountSummary)
      → summary_from_verified_plog log ≡ ok s
      → (ensure_plog_verified log ≡ ok tt) × (s.vlad ≡ encode_vlad (log_vlad log))
  unfolding summary_from_verified_plog
  summary-verified log s h =
      let (checked, e, rest) = >>=-eq-ok (ensure_plog_verified log) _ h in
      let (pubkey, e', last) = >>=-eq-ok (optional_pubkey (get_plog_value log "/pubkey")) _ rest in
      (e, ground (arith, last))

  opened-IsValid : (log : Log) → Invariant.IsValid (record { log = log; pending = [] })
  opened-IsValid log = record { distinct = tt; fresh = λ id p e. cc }

  pub verified_account_ok :
      (log : Log) (account : PlogAccount) (s : AccountSummary)
      → verified_account log ≡ ok (account, s)
      → (summary_from_verified_plog log ≡ ok s) × (account ≡ record { log = log; pending = [] })
  unfolding verified_account
  verified_account_ok log account s h = elim (Result-cases (summary_from_verified_plog log)) [
    | inl (s', e) ↦ ground (arith, e, h)
    | inr (e, bad) ↦ ground (arith, bad, h)
  ]

  -- The account of a log that was just opened or imported.
  pub verified_account-IsSound :
      VladLaws
      → (log : Log) (account : PlogAccount) (s : AccountSummary)
      → verified_account log ≡ ok (account, s)
      → (decode_vlad s.vlad ≡ ok (log_vlad log)) × IsSound (vlad_hash (log_vlad log)) account
  verified_account-IsSound laws log account s h =
      let (summed, same) = verified_account_ok log account s h in
      let (checked, named) = summary-verified log s summed in
      (
        (rw named (unfold encode_vlad decode_vlad in rw (laws.decode_encode (log_vlad log)) refl)),
        rw same (record {
          verified = (ensure_plog_verified_iff log).0 checked;
          filed = refl;
          valid = opened-IsValid log;
        }),
      )

  -- The three ways in which a method changes an account.
  pub prepared-IsSound :
      (env : Ambient) (r : Result PrepareEntrySpec Error) (h : VladHash) (account : PlogAccount)
      → IsSound h account
      → IsSound h (prepared env r account).1
  prepared-IsSound env r h account s =
      let same = prepared-log env r account in
      record {
        verified = rw same s.verified;
        filed = rw same s.filed;
        valid = prepared-IsValid env r s.valid;
      }

  pub commit_update-IsSound :
      AppendLaws
      → (now : ℕ) (id signature : String) (h : VladHash) (account : PlogAccount) → IsSound h account
      → IsSound h (commit_update now id signature account).1
  commit_update-IsSound laws now id signature h account s =
      let after = commit_update-IsVerified laws now id signature account s.verified in
      record {
        verified = after.0;
        filed = rw after.1 s.filed;
        valid = commit_update-IsValid laws now id signature s.valid;
      }

  pub cancel_update-IsSound :
      (now : ℕ) (id : String) (h : VladHash) (account : PlogAccount)
      → IsSound h account
      → IsSound h (cancel_update now id account).1
  cancel_update-IsSound now id h account s =
      let same = cancel_update-log now id account in
      record {
        verified = rw same s.verified;
        filed = rw same s.filed;
        valid = cancel_update-IsValid now id s.valid;
      }
