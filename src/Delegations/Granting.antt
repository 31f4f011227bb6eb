-- ===== src/Delegations/Granting.antt =====
-- What a lock's text and a stored value have to be for the listing, without its searches.
use Prim.Native.Char.{Char, len_utf8}
use Prim.Native.String.{String, ◌++◌, len, begins, find}
use Prim.Native.String.len as len_clauses
use Prim.Native.String.find as find_clauses
use text.Mathlib.TextFind.{find_cases, begins_cases}
use logos_accounts.Prelude.{
  ◌+◌, ◌≤◌, ◌≡◌, refl, sym, ◌∙◌, ap, subst, inl, inr, true, Bool-cases, some, [], ◌∷◌, ok, arith,
  ◌==◌, Result-cases, Option-cases,
}
use logos_accounts.Externals.{
  Externals, Bytes, Key, Kvp, Script, Value, str, data_value, nil, code, other, key_instance,
}
use logos_accounts.Encoding.{encode_multikey}
use logos_accounts.Delegations.Contains.{cons_append, nil_append, find-append}
use logos_accounts.Delegations.{contains, is_delegated, grant_text, find_grant}

-- `piece` stands somewhere in `s`.
abbrev pub Contains : String → String → Type 0
Contains s piece = (before : String) × (after : String) × (s ≡ before ++ (piece ++ after))

contains-Contains : (s piece : String) → contains s piece ≡ true → Contains s piece
contains-Contains s piece h = elim (find_cases s piece) [
  | inl (before, after, parts, _) ↦ (before, after, parts)
  | inr miss ↦ absurd (unfold contains in ground (arith, h, miss))
]

cons_len : (c : Char) (s : String) → len (String.◌∷◌ c s) ≡ len_utf8 c + len s
cons_len c s = λ i. len_clauses.cons c s i

find_later :
    (c : Char) (s piece : String)
    → find s piece ≤ len s
    → find (String.◌∷◌ c s) piece ≤ len (String.◌∷◌ c s)
find_later c s piece low =
    let step : find (String.◌∷◌ c s) piece
        ≡ begins (String.◌∷◌ c s) piece 0 (len_utf8 c + find s piece) =
      λ i. find_clauses.cons c s piece i in
    elim (begins_cases (String.◌∷◌ c s) piece 0 (len_utf8 c + find s piece)) [
      | inl (at_once, _) ↦ rw (step, at_once) (omega arith)
      | inr on ↦ rw (step, on, cons_len c s) (omega (arith, low))
    ]

find_before :
    (before piece after : String)
    → find (before ++ (piece ++ after)) piece ≤ len (before ++ (piece ++ after))
find_before String.[] piece after =
    rw (nil_append (piece ++ after), find-append piece after) (omega arith)
find_before (String.◌∷◌ c before) piece after =
    rw (cons_append c before (piece ++ after))
      (find_later c (before ++ (piece ++ after)) piece (find_before before piece after))

Contains-contains : (s piece : String) → Contains s piece → contains s piece ≡ true
Contains-contains s piece (before, after, parts) =
    let low = find_before before piece after in unfold contains in ground (arith, low, parts)

module _ ⦃x : Externals⦄ where
  open x use {as_str, multikey_try_from}

  -- The lock is a code whose text checks a signature with the `pubkey` of the branch it is bound
  -- to, or has `branch("pubkey")` in it.
  pub data ChecksKey : Script → Type 0 where
    names_key :
        {p : Key} {source : String}
        → Contains source ("check_signature(\"" ++ (as_str p ++ "pubkey\""))
        → ChecksKey (code p source)
    joins_key :
        {p : Key} {source : String}
        → Contains source "branch(\"pubkey\")"
        → ChecksKey (code p source)

  pub is_delegated-ChecksKey : (lock : Script) → is_delegated lock ≡ true → ChecksKey lock
  unfolding is_delegated
  is_delegated-ChecksKey (other o) h = absurd (cc)
  is_delegated-ChecksKey (code p source) h =
      elim (Bool-cases (contains source ("check_signature(\"" ++ (as_str p ++ "pubkey\"")))) [
        | inl named ↦ names_key (contains-Contains source _ named)
        | inr unnamed ↦
            joins_key (contains-Contains source "branch(\"pubkey\")" (ground (arith, h, unnamed)))
      ]

  pub ChecksKey-is_delegated : (lock : Script) → ChecksKey lock → is_delegated lock ≡ true
  unfolding is_delegated
  ChecksKey-is_delegated (other o) c = elim c [ ]
  ChecksKey-is_delegated (code p source) (names_key found) =
      let named = Contains-contains source _ found in ground (arith, named)
  ChecksKey-is_delegated (code p source) (joins_key found) =
      let joined = Contains-contains source _ found in ground (arith, joined)

  -- The key text that a stored value gives: the encoding of the key that its data decodes to, or
  -- its text as it is, which is not read as a key.
  pub data Gives : Value → String → Type 0 where
    decodes :
        {b : Bytes} {mk : x.Multikey}
        → multikey_try_from b ≡ ok mk
        → Gives (data_value b) (encode_multikey mk)
    as_it_is : {s : String} → Gives (str s) s

  grant_text-Gives : (v : Value) (s : String) → grant_text v ≡ some s → Gives v s
  unfolding grant_text
  grant_text-Gives (str t) s h =
      let is : t ≡ s = ground (arith, h) in subst (Gives (str t)) is as_it_is
  grant_text-Gives (data_value b) s h = elim (Result-cases (multikey_try_from b)) [
    | inl (mk, decoded) ↦
        let is : encode_multikey mk ≡ s = ground (arith, h, decoded) in
        subst (Gives (data_value b)) is (decodes decoded)
    | inr (e, bad) ↦ absurd (ground (arith, h, bad))
  ]
  grant_text-Gives nil s h = absurd (cc)

  Gives-grant_text : (v : Value) (s : String) → Gives v s → grant_text v ≡ some s
  unfolding grant_text
  Gives-grant_text _ s as_it_is = refl
  Gives-grant_text (data_value b) _ (decodes e) = rw (grant_text, e) refl

  -- The first value under the key that gives a text.
  pub data FirstGiven (key : Key) : Kvp → String → Type 0 where
    at_once : {v : Value} {rest : Kvp} {s : String} → Gives v s → FirstGiven key ((key, v) ∷ rest) s
    past :
        {k : Key} {v : Value} {rest : Kvp} {s : String}
        → (k ≡ key → (t : String) → ¬ Gives v t)
        → FirstGiven key rest s
        → FirstGiven key ((k, v) ∷ rest) s

  pub find_grant-FirstGiven :
      (key : Key) (kvp : Kvp) (s : String) → find_grant key kvp ≡ some s → FirstGiven key kvp s
  unfolding find_grant
  find_grant-FirstGiven key [] s h = absurd (cc)
  find_grant-FirstGiven key ((k, v) ∷ rest) s h = elim (Bool-cases (k == key)) [
    | inr different ↦
        past (λ same. absurd (ground (arith, different, (x.key_eq.decides k key).1 same)))
          (find_grant-FirstGiven key rest s (rw different at h))
    | inl same ↦ elim (Option-cases (grant_text v)) [
      | inl unread ↦
          past (λ _ t g. absurd (ground (arith, unread, Gives-grant_text v t g)))
            (find_grant-FirstGiven key rest s (rw (same, unread) at h))
      | inr (t, read) ↦
          let is : t ≡ s = ground (arith, h, same, read) in
          let is_key : key ≡ k = sym ((x.key_eq.decides k key).0 same) in
          subst (λ k'. FirstGiven key ((k', v) ∷ rest) s) is_key
            (at_once (grant_text-Gives v s (read ∙ ap some is)))
    ]
  ]

  pub FirstGiven-find_grant :
      (key : Key) (kvp : Kvp) (s : String) → FirstGiven key kvp s → find_grant key kvp ≡ some s
  unfolding find_grant
  FirstGiven-find_grant key _ s (at_once {v} g) =
      rw ((x.key_eq.decides key key).1 refl, Gives-grant_text v s g) refl
  FirstGiven-find_grant key _ s (past {k} {v} {rest} skipped later) =
      let on = FirstGiven-find_grant key rest s later in
      elim (Bool-cases (k == key)) [
        | inr different ↦ rw different on
        | inl same ↦ elim (Option-cases (grant_text v)) [
          | inl unread ↦ rw (same, unread) on
          | inr (t, read) ↦
              absurd (skipped ((x.key_eq.decides k key).0 same) t (grant_text-Gives v t read))
        ]
      ]
