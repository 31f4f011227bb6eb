-- ===== src/Cache/Refines.antt =====
-- The cache answers as its abstract view does.
use logos_accounts.Prelude.{
  zero, suc, ◌<◌, String, ◌≡◌, ◌≢◌, refl, ap, ◌∙◌, inl, inr, none, some, Option-cases, List, [],
  ◌∷◌, ok, err, Result-cases, bytes_eq, length, arith,
}
use logos_accounts.Prelude.Dict.{lookup, contains_key}
use logos_accounts.Prelude.Dict
use logos_accounts.Error.{Error}
use logos_accounts.Externals.{Externals}
use logos_accounts.Account.{PlogAccount}
use logos_accounts.Cache.{
  VladHash, Ref, Cell, AccountCache, new_cache, get_cell, key_from_multibase, insert, get, contains,
  remove, clear, get_by_hash, remove_by_hash,
}
use logos_accounts.Cache.Abstract.{
  CacheCall, put, read, ask, rewrite, take_out, wipe, Answer, fresh_cell, call_cache, Accounts,
  accounts_of, text_of, call_accounts, cache_answers, accounts_answers,
}
use logos_accounts.Cache.View.{
  IsValid, new_cache-IsValid, view-insert_by_hash, insert_by_hash-IsValid, view-remove_by_hash,
  remove_by_hash-IsValid, clear-IsValid, view-write_cell, write_cell-IsValid,
}

module _ ⦃x : Externals⦄ where
  -- The answer and the cache are those of the abstract view.
  pub record Follows (spec : Answer × Accounts) (out : Answer × AccountCache) : Type 0 where
    pub answers : out.0 ≡ spec.0
    pub leaves : accounts_of out.1 ≡ spec.1
    pub valid : IsValid out.1

  get_cell-some :
      (r : Ref) (cs : List Cell) → r < length cs → (cell : Cell) × (get_cell r cs ≡ some cell)
  get_cell-some r [] h = absurd (omega arith)
  get_cell-some zero (cell ∷ cs) h = (cell, refl)
  get_cell-some (suc r) (cell ∷ cs) h = get_cell-some r cs (omega arith)

  abbrev IsFollowed : CacheCall → AccountCache → Type 0
  IsFollowed call c = Follows (call_accounts call (accounts_of c)) (call_cache call c)

  -- A text that stands for a hash.
  module _ (key : VladHash) (c : AccountCache) (v : IsValid c) (t : String)
      (hashed : key_from_multibase t ≡ ok key) where
    put-IsFollowed : (a : PlogAccount) → IsFollowed (put t a) c
    unfolding call_cache insert
    put-IsFollowed a = rw hashed (record {
      answers = refl;
      leaves = λ i h. view-insert_by_hash key h a v i;
      valid = insert_by_hash-IsValid key a v;
    })

    read-IsFollowed : IsFollowed (read t) c
    unfolding call_cache get get_by_hash
    read-IsFollowed = elim (Option-cases (lookup key c.entries)) [
      | inl absent ↦ rw (hashed, absent) (record { answers = refl; leaves = refl; valid = v })
      | inr (r, there) ↦
          let (cell, here) = get_cell-some r c.cells (v.in_range key r there) in
          rw (hashed, there, here) (record { answers = refl; leaves = refl; valid = v })
    ]

    ask-IsFollowed : IsFollowed (ask t) c
    unfolding call_cache contains
    ask-IsFollowed = elim (Option-cases (lookup key c.entries)) [
      | inl absent ↦
          rw (hashed, absent, contains_key) (record { answers = refl; leaves = refl; valid = v })
      | inr (r, there) ↦
          let (cell, here) = get_cell-some r c.cells (v.in_range key r there) in
          rw (hashed, there, here, contains_key)
            (record { answers = refl; leaves = refl; valid = v })
    ]

    rewrite-IsFollowed : (a : PlogAccount) → IsFollowed (rewrite t a) c
    unfolding call_cache get get_by_hash
    rewrite-IsFollowed a = elim (Option-cases (lookup key c.entries)) [
      | inl absent ↦ rw (hashed, absent) (record { answers = refl; leaves = refl; valid = v })
      | inr (r, there) ↦
          let (cell, here) = get_cell-some r c.cells (v.in_range key r there) in
          rw (hashed, there, here)
            (record {
              answers = refl;
              leaves = λ i h. view-write_cell key h r (fresh_cell a) v there i;
              valid = write_cell-IsValid r (fresh_cell a) v;
            })
    ]

    take_out-IsFollowed : IsFollowed (take_out t) c
    unfolding call_cache remove remove_by_hash
    take_out-IsFollowed = elim (Option-cases (lookup key c.entries)) [
      | inl absent ↦ rw (hashed, absent) (record { answers = refl; leaves = refl; valid = v })
      | inr (r, there) ↦
          let (cell, here) = get_cell-some r c.cells (v.in_range key r there) in
          let after = record c { entries = Dict.remove key c.entries } in
          let taken : remove_by_hash key c ≡ ok after = rw there refl in
          rw (hashed, there, here)
            (record {
              answers = refl;
              leaves = λ i h. view-remove_by_hash key h c after taken i;
              valid = remove_by_hash-IsValid key c after v taken;
            })
    ]

  -- A text that stands for no hash.
  failed-IsFollowed :
      (call : CacheCall) (c : AccountCache) (e : Error)
      → IsValid c
      → call ≢ wipe
      → key_from_multibase (text_of call) ≡ err e
      → IsFollowed call c
  unfolding call_cache insert get contains remove
  failed-IsFollowed (put t a) c e v n bad =
      rw bad (record { answers = refl; leaves = refl; valid = v })
  failed-IsFollowed (read t) c e v n bad =
      rw bad (record { answers = refl; leaves = refl; valid = v })
  failed-IsFollowed (ask t) c e v n bad =
      rw bad (record { answers = refl; leaves = refl; valid = v })
  failed-IsFollowed (rewrite t a) c e v n bad =
      rw bad (record { answers = refl; leaves = refl; valid = v })
  failed-IsFollowed (take_out t) c e v n bad =
      rw bad (record { answers = refl; leaves = refl; valid = v })
  failed-IsFollowed wipe c e v n bad = absurd (n refl)

  by_key :
      (call : CacheCall) (c : AccountCache)
      → IsValid c
      → call ≢ wipe
      → ((key : VladHash) → key_from_multibase (text_of call) ≡ ok key → IsFollowed call c)
      → IsFollowed call c
  by_key call c v n f = elim (Result-cases (key_from_multibase (text_of call))) [
    | inl (key, hashed) ↦ f key hashed
    | inr (e, bad) ↦ failed-IsFollowed call c e v n bad
  ]

  call_cache-IsFollowed : (call : CacheCall) (c : AccountCache) → IsValid c → IsFollowed call c
  unfolding call_cache clear
  call_cache-IsFollowed (put t a) c v =
      by_key (put t a) c v (λ e. cc) λ key hashed. put-IsFollowed key c v t hashed a
  call_cache-IsFollowed (read t) c v =
      by_key (read t) c v (λ e. cc) λ key hashed. read-IsFollowed key c v t hashed
  call_cache-IsFollowed (ask t) c v =
      by_key (ask t) c v (λ e. cc) λ key hashed. ask-IsFollowed key c v t hashed
  call_cache-IsFollowed (rewrite t a) c v =
      by_key (rewrite t a) c v (λ e. cc) λ key hashed. rewrite-IsFollowed key c v t hashed a
  call_cache-IsFollowed (take_out t) c v =
      by_key (take_out t) c v (λ e. cc) λ key hashed. take_out-IsFollowed key c v t hashed
  call_cache-IsFollowed wipe c v = record { answers = refl; leaves = refl; valid = clear-IsValid c }

  answers-from :
      (calls : List CacheCall) (c : AccountCache)
      → IsValid c
      → cache_answers calls c ≡ accounts_answers calls (accounts_of c)
  answers-from [] c v = refl
  answers-from (call ∷ calls) c v =
      let out = call_cache-IsFollowed call c v in
      let rest = answers-from calls (call_cache call c).1 out.valid in
      λ i. out.answers i ∷ (rest ∙ ap (accounts_answers calls) out.leaves) i

  -- From the empty cache on, any calls are answered as they are on a partial function from hashes
  -- to accounts: where a text stands for a hash, `insert` sets the account there, `get` finds it
  -- and a write through its reference replaces it, `contains` tells whether there is one, `remove`
  -- takes it out, each failing where there is none, and `clear` takes all out. A text that stands
  -- for no hash fails, and no reference dangles.
  pub cache_answers-accounts_answers :
      (calls : List CacheCall) → cache_answers calls new_cache ≡ accounts_answers calls (λ h. none)
  unfolding new_cache
  cache_answers-accounts_answers calls = answers-from calls new_cache new_cache-IsValid
