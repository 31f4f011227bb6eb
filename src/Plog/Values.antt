-- ===== src/Plog/Values.antt =====
-- What is read at a path.
use logos_accounts.Prelude.{String, ◌≡◌, refl, Option, none, some, [], ◌∷◌, Result, ok, err, arith}
use logos_accounts.Prelude.Dict.{lookup}
use logos_accounts.Error.{Error, path_not_found}
use logos_accounts.Externals.{Externals, Key, Log, Kvp, Value, key_instance, Entry}
use logos_accounts.Plog.{
  PlogPathValue, parse_key, path_value, find_value, get_plog_value, verified_head,
}

module _ ⦃x : Externals⦄ where
  -- The answer to a read, from the entry of the store.
  abbrev pub answer : String → Option Value → Result PlogPathValue Error
  answer path none = err (path_not_found path)
  answer path (some v) = ok (path_value v)

  find_value-lookup :
      (path : String) (key : Key) (kvp : Kvp)
      → find_value path key kvp ≡ answer path (lookup key kvp)
  unfolding find_value
  find_value-lookup path key [] = refl
  find_value-lookup path key ((k, v) ∷ rest) = ground (arith, find_value-lookup path key rest)

  -- For a path that parses, on a log that verifies, a read is the lookup of the key in the store
  -- of the head: its value if there is one, and otherwise the missing path as an error.
  pub get_plog_value-lookup :
      (log : Log) (path : String) {key : Key} {head : Entry × Kvp}
      → parse_key path ≡ ok key
      → verified_head log ≡ ok head
      → get_plog_value log path ≡ answer path (lookup key head.1)
  get_plog_value-lookup log path {key} {head} p h =
      unfold get_plog_value in rw (p, h) (find_value-lookup path key head.1)
