-- ===== src/Externals/Laws.antt =====
-- What the documentation of provenance-log promises of its log, as records that theorems take as
-- hypotheses.
use logos_accounts.Prelude.{ℕ, String, ◌≡◌, ◌≢◌, [], Result, ok, err, false, All}
use logos_accounts.Error.{Error}
use logos_accounts.Externals.{Externals, Entry, Log, Kvp, Key, Vlad, Multikey, code}

module _ ⦃x : Externals⦄ where
  open x use {
    verify, try_append, log_vlad, encoded_vlad, encoded_vlad_try_from, to_public_key, is_secret_key,
    key_try_from, key_to_string, script_path,
  }

  abbrev pub IsOk : Result (ℕ × Entry × Kvp) String → Type 0
  IsOk (ok _) = Unit {0}
  IsOk (err _) = ⊥

  -- The log has an entry, and every entry verifies.
  pub record IsVerified (log : Log) : Type 0 where
    pub nonempty : verify log ≢ []
    pub all_ok : All IsOk (verify log)

  -- `Log::try_append` verifies what it appends, and a refused entry is not appended.
  pub record AppendLaws : Type 0 where
    pub rejected_keeps :
        (log log' : Log) (entry : Entry) (e : Error)
        → try_append log entry ≡ (err e, log')
        → log' ≡ log
    pub accepted_verifies :
        (log log' : Log) (entry : Entry)
        → try_append log entry ≡ (ok tt, log')
        → IsVerified log
        → IsVerified log'
    pub accepted_keeps_vlad :
        (log log' : Log) (entry : Entry)
        → try_append log entry ≡ (ok tt, log')
        → log_vlad log' ≡ log_vlad log

  -- A VLAD's text decodes to it.
  pub record VladLaws : Type 0 where
    pub decode_encode : (v : Vlad) → encoded_vlad_try_from (encoded_vlad v) ≡ ok v

  -- A key prints as a text that parses back to it, and a code script is bound to its key.
  pub record KeyLaws : Type 0 where
    pub parse_print : (k : Key) → key_try_from (key_to_string k) ≡ ok k
    pub path_of_code : (k : Key) (source : String) → script_path (code k source) ≡ k

  -- `to_public_key` returns a key that is not secret.
  pub record PublicLaws : Type 0 where
    pub public : (k p : Multikey) → to_public_key k ≡ ok p → is_secret_key p ≡ ok false
