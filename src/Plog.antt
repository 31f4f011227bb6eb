-- ===== src/Plog.antt =====
-- rust-lib/src/api.rs, the readers: full-chain verification, the value at a path, the summary.
pub mod Verify
pub mod Values
pub mod Read
pub mod Summary
use Prim.Native.String.{◌++◌}
use logos_accounts.Prelude.{
  ℕ, String, Bool, true, false, Option, none, some, List, [], ◌∷◌, Result, ok, err, map_err, ◌>>=◌,
  ◌==◌, if◌then◌else◌,
}
use logos_accounts.Error.{Error, message, plog_verify_failed, path_not_found, invalid_op}
use logos_accounts.Externals.{
  Externals, Key, Entry, Log, Kvp, Bytes, Value, data_value, nil, key_instance,
}
use logos_accounts.Encoding.{encode_bytes_multibase, encode_multikey, encode_vlad, encode_cid}

pub record AccountSummary : Type 0 where
  pub vlad : String
  pub head_cid : String
  pub pubkey : Option String

pub data PlogPathValue : Type 0 where
  str bin : String → PlogPathValue

-- `Option::expect`: the message of the panic stands for the panic.
unfoldable pub expect : {A : Type 0} → String → Option A → Result A Error
expect msg none = err (message ("panicked: " ++ msg))
expect msg (some a) = ok a

module _ ⦃x : Externals⦄ where
  open x use {key_try_from, verify, log_vlad, log_head, multikey_try_from}

  -- One item of `log.verify()`.
  abbrev pub VerifyItem : Type 0
  VerifyItem = Result (ℕ × Entry × Kvp) String

  unfoldable pub parse_key : String → Result Key Error
  parse_key s =
      map_err (λ e. invalid_op ("invalid key path " ++ (s ++ (": " ++ e)))) (key_try_from s)

  -- The loop of `ensure_plog_verified`, with its flag `any`.
  unfoldable pub ensure_loop : Bool → List VerifyItem → Result (Unit {0}) Error
  ensure_loop any [] = if any then ok tt else err (plog_verify_failed "empty provenance log")
  ensure_loop any (ok _ ∷ rest) = ensure_loop true rest
  ensure_loop any (err e ∷ rest) = err (plog_verify_failed e)

  unfoldable pub ensure_plog_verified : Log → Result (Unit {0}) Error
  unfolding ensure_loop
  ensure_plog_verified log = ensure_loop false (verify log)

  -- The loops of `get_plog_value` and `list_delegations`: the flag `any`, and the last entry and
  -- store seen. The final `expect` is part of the loop's end.
  unfoldable pub last_verified :
      Bool → Option (Entry × Kvp) → List VerifyItem → Result (Entry × Kvp) Error
  unfolding expect
  last_verified any last [] =
      if any
      then expect "any implies last" last
      else err (plog_verify_failed "empty provenance log")
  last_verified any last (ok (count, entry, kvp) ∷ rest) =
      last_verified true (some (entry, kvp)) rest
  last_verified any last (err e ∷ rest) = err (plog_verify_failed e)

  unfoldable pub verified_head : Log → Result (Entry × Kvp) Error
  unfolding last_verified
  verified_head log = last_verified false none (verify log)

  unfoldable pub encode_bin_value : Bytes → String
  encode_bin_value bytes = elim (multikey_try_from bytes) [
    | ok mk ↦ encode_multikey mk
    | err _ ↦ encode_bytes_multibase bytes
  ]

  unfoldable pub path_value : Value → PlogPathValue
  unfolding encode_bin_value
  path_value (Value.str s) = PlogPathValue.str s
  path_value (data_value b) = bin (encode_bin_value b)
  path_value nil = bin (encode_bytes_multibase [])

  -- The search of the store for `key`.
  unfoldable pub find_value : String → Key → Kvp → Result PlogPathValue Error
  unfolding path_value
  find_value path key [] = err (path_not_found path)
  find_value path key ((k, v) ∷ rest) =
      if k == key then ok (path_value v) else find_value path key rest

  unfoldable pub get_plog_value : Log → String → Result PlogPathValue Error
  unfolding parse_key verified_head find_value
  get_plog_value log path =
      parse_key path >>= λ key. verified_head log >>= λ head. find_value path key head.1

  -- The match on the `/pubkey` read: a missing path is no error.
  unfoldable pub optional_pubkey : Result PlogPathValue Error → Result (Option String) Error
  optional_pubkey (ok (bin s)) = ok (some s)
  optional_pubkey (ok (PlogPathValue.str s)) = ok (some s)
  optional_pubkey (err (path_not_found _)) = ok none
  optional_pubkey (err e) = err e

  unfoldable pub summary_from_verified_plog : Log → Result AccountSummary Error
  unfolding ensure_plog_verified optional_pubkey
  summary_from_verified_plog log = ensure_plog_verified log >>= λ _.
      optional_pubkey (get_plog_value log "/pubkey") >>= λ pubkey. ok (record {
        vlad = encode_vlad (log_vlad log);
        head_cid = encode_cid (log_head log);
        pubkey = pubkey;
      })
