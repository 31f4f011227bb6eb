-- ===== src/Cache/Abstract.antt =====
-- rust-lib/src/cache.rs: the cache against what it promises, a partial function from hashes to
-- accounts.
use logos_accounts.Prelude.{
  String, Bool, true, false, Option, none, some, List, [], ◌∷◌, Result, ok, err, ◌==◌, bytes_eq,
  if◌then◌else◌,
}
use logos_accounts.Error.{Error, account_not_cached}
use logos_accounts.Externals.{Externals}
use logos_accounts.Account.{PlogAccount}
use logos_accounts.Cache.{
  VladHash, Ref, Cell, AccountCache, get_cell, hash_hex_short, key_from_multibase, insert, get,
  contains, remove, clear,
}
use logos_accounts.Cache.View.{view, write_cell}

module _ ⦃x : Externals⦄ where
  -- The calls of a cache by the text of a VLAD. `rewrite` is `get` and then a write through the
  -- reference.
  pub data CacheCall : Type 0 where
    put : String → PlogAccount → CacheCall
    read : String → CacheCall
    ask : String → CacheCall
    rewrite : String → PlogAccount → CacheCall
    take_out : String → CacheCall
    wipe : CacheCall

  -- What a call returns. `dangling` is a reference to no cell.
  pub data Answer : Type 0 where
    nothing : Answer
    found : Cell → Answer
    dangling : Answer
    told : Bool → Answer
    failed : Error → Answer

  abbrev pub fresh_cell : PlogAccount → Cell
  fresh_cell account = record { account = account; poisoned = false }

  abbrev pub behind : Option Cell → Answer
  behind none = dangling
  behind (some cell) = found cell

  -- A call that changes the cache, or fails and leaves it.
  abbrev changed : Result AccountCache Error → AccountCache → Answer × AccountCache
  changed (ok c') c = (nothing, c')
  changed (err e) c = (failed e, c)

  abbrev fetched :
      Result Ref Error → AccountCache → (Ref → Answer × AccountCache) → Answer × AccountCache
  fetched (ok r) c f = f r
  fetched (err e) c f = (failed e, c)

  abbrev asked : Result Bool Error → AccountCache → Answer × AccountCache
  asked (ok b) c = (told b, c)
  asked (err e) c = (failed e, c)

  unfoldable pub call_cache : CacheCall → AccountCache → Answer × AccountCache
  unfolding insert get contains remove
  call_cache (put t a) c = changed (insert t a c) c
  call_cache (read t) c = fetched (get t c) c λ r. (behind (get_cell r c.cells), c)
  call_cache (ask t) c = asked (contains t c) c
  call_cache (rewrite t a) c = fetched (get t c) c λ r. (nothing, write_cell r (fresh_cell a) c)
  call_cache (take_out t) c = changed (remove t c) c
  call_cache wipe c = (nothing, (clear c).1)

  -- The abstract view: which cell stands under a hash.
  abbrev pub Accounts : Type 0
  Accounts = VladHash → Option Cell

  abbrev pub accounts_of : AccountCache → Accounts
  accounts_of c h = view h c

  abbrev pub update : VladHash → Option Cell → Accounts → Accounts
  update key new f h = if key == h then new else f h

  -- The same calls, on a partial function, with the hash that the text stands for.
  abbrev on_hash : CacheCall → VladHash → Accounts → Option Cell → Answer × Accounts
  on_hash (put t a) key f old = (nothing, update key (some (fresh_cell a)) f)
  on_hash (read t) key f (some cell) = (found cell, f)
  on_hash (ask t) key f none = (told false, f)
  on_hash (ask t) key f (some cell) = (told true, f)
  on_hash (rewrite t a) key f (some cell) = (nothing, update key (some (fresh_cell a)) f)
  on_hash (take_out t) key f (some cell) = (nothing, update key none f)
  on_hash wipe key f old = (nothing, λ h. none)
  on_hash _ key f none = (failed (account_not_cached (hash_hex_short key)), f)

  abbrev pub text_of : CacheCall → String
  text_of (put t a) = t
  text_of (read t) = t
  text_of (ask t) = t
  text_of (rewrite t a) = t
  text_of (take_out t) = t
  text_of wipe = ""

  abbrev on_key : CacheCall → Result VladHash Error → Accounts → Answer × Accounts
  on_key call (ok key) f = on_hash call key f (f key)
  on_key call (err e) f = (failed e, f)

  abbrev pub call_accounts : CacheCall → Accounts → Answer × Accounts
  call_accounts wipe f = (nothing, λ h. none)
  call_accounts call f = on_key call (key_from_multibase (text_of call)) f

  -- The answers to calls, one after the other.
  abbrev pub cache_answers : List CacheCall → AccountCache → List Answer
  cache_answers [] c = []
  cache_answers (call ∷ calls) c = let out = call_cache call c in out.0 ∷ cache_answers calls out.1

  abbrev pub accounts_answers : List CacheCall → Accounts → List Answer
  accounts_answers [] f = []
  accounts_answers (call ∷ calls) f =
      let out = call_accounts call f in out.0 ∷ accounts_answers calls out.1
