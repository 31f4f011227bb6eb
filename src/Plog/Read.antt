-- ===== src/Plog/Read.antt =====
-- rust-lib/src/api.rs, `get_plog_value`: when a read succeeds, and what it shows of the value.
use Prim.Native.String.{◌++◌}
use logos_accounts.Prelude.{
  String, ◌≡◌, refl, sym, ◌∙◌, subst, ◌≢◌, ◌↔◌, Bool, true, false, Option, none, some, List, [],
  ◌∷◌, ok, err, All, arith, Result-cases, inl, inr,
}
use logos_accounts.Prelude.Dict.{lookup}
use logos_accounts.Error.{Error, invalid_op, path_not_found}
use logos_accounts.Externals.{
  Externals, Bytes, Key, Entry, Log, Kvp, Value, str, data_value, nil, Multikey, key_instance,
}
use logos_accounts.Externals.Laws.{IsOk, IsVerified}
use logos_accounts.Encoding.{encode_multikey, encode_bytes_multibase}
use logos_accounts.Plog.{
  VerifyItem, PlogPathValue, bin, parse_key, path_value, encode_bin_value, last_verified,
  verified_head, get_plog_value,
}
use logos_accounts.Plog.Verify.{IsLast, verified_head-last_entry, verified_head_error}
use logos_accounts.Plog.Values.{answer, get_plog_value-lookup}

module _ ⦃x : Externals⦄ where
  open x use {key_try_from, verify, multikey_try_from, multibase_encode, base64_url}

  -- What is shown of a stored value: a text as it is, and anything else as the text of its bytes,
  -- those of a key in the encoding of keys and all other in base64url.
  pub data Shows : Value → PlogPathValue → Type 0 where
    shows_text : {s : String} → Shows (str s) (PlogPathValue.str s)
    shows_key :
        {b : Bytes} {mk : Multikey}
        → multikey_try_from b ≡ ok mk
        → Shows (data_value b) (bin (encode_multikey mk))
    shows_bytes :
        {b : Bytes} {e : String}
        → multikey_try_from b ≡ err e
        → Shows (data_value b) (bin (multibase_encode base64_url b))
    shows_nothing : Shows nil (bin (multibase_encode base64_url []))

  -- The path is a key, the log verifies, and `stored` is what the store after the last entry has
  -- under the key.
  pub record Stored (log : Log) (path : String) (stored : Option Value) : Type 0 where
    pub key : Key
    pub parsed : key_try_from path ≡ ok key
    pub verified : IsVerified log
    pub head : Entry × Kvp
    pub last : IsLast (verify log) head
    pub found : lookup key head.1 ≡ stored

  path_value-Shows : (v : Value) → Shows v (path_value v)
  unfolding path_value encode_bin_value encode_bytes_multibase
  path_value-Shows (str s) = shows_text
  path_value-Shows nil = shows_nothing
  path_value-Shows (data_value b) = elim (Result-cases (multikey_try_from b)) [
    | inl (mk, e) ↦ rw (encode_bin_value, e) (shows_key e)
    | inr (e', e) ↦ rw (encode_bin_value, e) (shows_bytes e)
  ]

  Shows-path_value : (v : Value) (shown : PlogPathValue) → Shows v shown → path_value v ≡ shown
  unfolding path_value encode_bin_value encode_bytes_multibase
  Shows-path_value (str s) _ shows_text = refl
  Shows-path_value nil _ shows_nothing = refl
  Shows-path_value (data_value b) _ (shows_key e) = rw (encode_bin_value, e) refl
  Shows-path_value (data_value b) _ (shows_bytes e) = rw (encode_bin_value, e) refl

  last_verified-All :
      (any : Bool) (last : Option (Entry × Kvp)) (items : List VerifyItem) (head : Entry × Kvp)
      → last_verified any last items ≡ ok head
      → All IsOk items
  unfolding last_verified
  last_verified-All any last [] head h = tt
  last_verified-All any last (ok (n, e, k) ∷ rest) head h =
      (tt, last_verified-All true (some (e, k)) rest head h)
  last_verified-All any last (err e ∷ rest) head h = absurd (cc)

  last_verified-nonempty :
      (items : List VerifyItem) (head : Entry × Kvp)
      → last_verified false none items ≡ ok head
      → items ≢ []
  unfolding last_verified
  last_verified-nonempty [] head h = absurd (cc)
  last_verified-nonempty (i ∷ rest) head h = λ e. cc

  -- The reading loop succeeds only on a log that verifies, with the entry and store of the last item.
  verified_head-IsLast :
      (log : Log) (head : Entry × Kvp)
      → verified_head log ≡ ok head
      → IsVerified log × IsLast (verify log) head
  verified_head-IsLast log head h =
      let loop : last_verified false none (verify log) ≡ ok head = unfold verified_head in h in
      let v : IsVerified log = record {
        nonempty = last_verified-nonempty (verify log) head loop;
        all_ok = last_verified-All false none (verify log) head loop;
      } in
      let (head', found, l, _) = verified_head-last_entry log v in
      let is : head' ≡ head = ground (arith, found, h) in (v, subst (IsLast (verify log)) is l)

  IsLast-verified_head :
      (log : Log) (head : Entry × Kvp)
      → IsVerified log
      → IsLast (verify log) head
      → verified_head log ≡ ok head
  IsLast-verified_head log head v l =
      let (head', found, l', _) = verified_head-last_entry log v in
      let is : head' ≡ head = ground (arith, l.last, l'.last) in ground (arith, found, is)

  parse_key-ok : (path : String) (key : Key) → key_try_from path ≡ ok key → parse_key path ≡ ok key
  parse_key-ok path key h = unfold parse_key in rw h refl

  Stored-answer :
      (log : Log) (path : String) (stored : Option Value)
      → Stored log path stored
      → get_plog_value log path ≡ answer path stored
  Stored-answer log path stored r =
      let head = IsLast-verified_head log r.head r.verified r.last in
      get_plog_value-lookup log path (parse_key-ok path r.key r.parsed) head ∙ rw r.found refl

  -- A read of a path that does not parse, or of a log that does not verify, fails otherwise than
  -- with a missing path.
  data Outcome (log : Log) (path : String) : Type 0 where
    reads : (stored : Option Value) → Stored log path stored → Outcome log path
    fails :
        (e : Error) → get_plog_value log path ≡ err e → e ≢ path_not_found path → Outcome log path

  outcome : (log : Log) (path : String) → Outcome log path
  outcome log path = elim (Result-cases (key_try_from path)) [
    | inr (e, bad) ↦
        fails (invalid_op ("invalid key path " ++ (path ++ (": " ++ e))))
          (unfold get_plog_value parse_key in rw bad refl) (λ same. cc)
    | inl (key, parsed) ↦ elim (Result-cases (verified_head log)) [
      | inr (e, bad) ↦
          let (m, is) = verified_head_error log e bad in
          fails e (unfold get_plog_value in rw (parse_key-ok path key parsed, bad) refl)
            (λ same. absurd (ground (arith, is, same)))
      | inl (head, found) ↦
          let (v, l) = verified_head-IsLast log head found in
          reads (lookup key head.1) (record {
            key = key;
            parsed = parsed;
            verified = v;
            head = head;
            last = l;
            found = refl;
          })
    ]
  ]

  answer-Shows :
      (log : Log) (path : String) (shown : PlogPathValue) (stored : Option Value)
      → Stored log path stored
      → answer path stored ≡ ok shown
      → (v : Value) × Stored log path (some v) × Shows v shown
  answer-Shows log path shown none r h = absurd (cc)
  answer-Shows log path shown (some v) r h =
      let is : path_value v ≡ shown = ground (arith, h) in
      (v, r, subst (Shows v) is (path_value-Shows v))

  answer-missing :
      (log : Log) (path : String) (stored : Option Value)
      → Stored log path stored
      → answer path stored ≡ err (path_not_found path)
      → Stored log path none
  answer-missing log path none r h = r
  answer-missing log path (some v) r h = absurd (cc)

  -- A read succeeds exactly where the path is a key, the log verifies and the store after its last
  -- entry has a value under that key. It shows a text as it is, data that decodes to a key as the
  -- encoding of that key, all other data in base64url, and an empty value as no bytes in base64url.
  -- It ends with the missing path exactly where the path is a key and the log verifies, and the
  -- store has nothing under that key.
  pub get_plog_value_iff :
      (log : Log) (path : String) (shown : PlogPathValue)
      → ((get_plog_value log path ≡ ok shown)
          ↔ ((v : Value) × Stored log path (some v) × Shows v shown))
        × ((get_plog_value log path ≡ err (path_not_found path)) ↔ Stored log path none)
  get_plog_value_iff log path shown = (
    (
      (λ h. elim (outcome log path) [
        | reads stored r ↦
            answer-Shows log path shown stored r (sym (Stored-answer log path stored r) ∙ h)
        | fails e bad _ ↦ absurd (ground (arith, bad, h))
      ]),
      (λ c. Stored-answer log path (some c.0) c.1 ∙ (rw (Shows-path_value c.0 shown c.2) refl)),
    ),
    (
      (λ h. elim (outcome log path) [
        | reads stored r ↦
            answer-missing log path stored r (sym (Stored-answer log path stored r) ∙ h)
        | fails e bad other ↦ absurd (other (ground (arith, bad, h)))
      ]),
      Stored-answer log path none,
    ),
  )
