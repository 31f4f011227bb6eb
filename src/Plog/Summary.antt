-- ===== src/Plog/Summary.antt =====
-- The summary of a verified log.
use logos_accounts.Prelude.{String, ◌≡◌, refl, Option, none, some, ok}
use logos_accounts.Prelude.Dict.{lookup}
use logos_accounts.Externals.{Externals, Key, Log, Value, str, data_value, nil, key_instance}
use logos_accounts.Externals.Laws.{IsVerified}
use logos_accounts.Encoding.{encode_vlad, encode_cid}
use logos_accounts.Plog.{
  AccountSummary, optional_pubkey, parse_key, path_value, summary_from_verified_plog,
}
use logos_accounts.Plog.Verify.{ensure_plog_verified_iff, verified_head-last_entry}
use logos_accounts.Plog.Values.{answer, get_plog_value-lookup}

module _ ⦃x : Externals⦄ where
  open x use {key_try_from, log_vlad, log_head}

  optional_pubkey-answer :
      (path : String) (v : Option Value)
      → (pubkey : Option String) × (optional_pubkey (answer path v) ≡ ok pubkey)
  unfolding optional_pubkey path_value
  optional_pubkey-answer path none = (none, refl)
  optional_pubkey-answer path (some (str s)) = (some s, refl)
  optional_pubkey-answer path (some (data_value b)) = (_, refl)
  optional_pubkey-answer path (some nil) = (_, refl)

  parse_key-ok : (path : String) {key : Key} → key_try_from path ≡ ok key → parse_key path ≡ ok key
  parse_key-ok path h = unfold parse_key in rw h refl

  -- Where the text `/pubkey` is a key, a verified log has a summary: a store without that key is
  -- no error.
  pub summary_from_verified_plog-total :
      {key : Key}
      → key_try_from "/pubkey" ≡ ok key
      → (log : Log) → IsVerified log
      → (s : AccountSummary) × (summary_from_verified_plog log ≡ ok s)
  summary_from_verified_plog-total {key} parses log v =
      let (head, found, _, _) = verified_head-last_entry log v in
      let value = get_plog_value-lookup log "/pubkey" (parse_key-ok "/pubkey" parses) found in
      let (pubkey, read) = optional_pubkey-answer "/pubkey" (lookup key head.1) in
      let checked = (ensure_plog_verified_iff log).1 v in
      (
        record {
          vlad = encode_vlad (log_vlad log);
          head_cid = encode_cid (log_head log);
          pubkey = pubkey;
        },
        unfold summary_from_verified_plog in rw (checked, value, read) refl,
      )
