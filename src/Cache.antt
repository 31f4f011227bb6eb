-- ===== src/Cache.antt =====
-- rust-lib/src/cache.rs: the accounts in memory, by the hash of their VLAD. The map holds shared
-- references (`Arc<Mutex<PlogAccount>>`): the cells stand beside the map, and a reference is the
-- index of its cell. The lock of the map itself is never poisoned: nothing panics under it.
pub mod View
pub mod Abstract
pub mod Refines
use logos_accounts.Prelude.{
  ℕ, zero, suc, String, Bool, true, false, Option, none, some, List, [], ◌∷◌, ◌++◌, Result, ok, err,
  map_err, ◌>>=◌, ok_or, bytes_eq, nat_beq, length,
}
use logos_accounts.Prelude.Dict
use logos_accounts.Prelude.Dict.{Dict}
use logos_accounts.Error.{Error, account_not_cached}
use logos_accounts.Externals.{Externals, Bytes, Vlad}
use logos_accounts.Encoding.{decode_vlad}
use logos_accounts.Encoding.Hex.{encode_hex, take_chars, vlad_hash}
use logos_accounts.Account.{PlogAccount}

-- `[u8; 32]`
abbrev pub VladHash : Type 0
VladHash = Bytes

abbrev pub Ref : Type 0
Ref = ℕ

unfoldable pub hash_hex_short : VladHash → String
unfolding encode_hex take_chars
hash_hex_short key = take_chars 16 (encode_hex key)

module _ ⦃x : Externals⦄ where
  -- A `Mutex<PlogAccount>`.
  pub record Cell : Type 0 where
    pub account : PlogAccount
    pub poisoned : Bool

  pub record AccountCache : Type 0 where
    pub entries : Dict VladHash Ref
    pub cells : List Cell

  abbrev pub get_cell : Ref → List Cell → Option Cell
  get_cell r [] = none
  get_cell zero (c ∷ cs) = some c
  get_cell (suc r) (c ∷ cs) = get_cell r cs

  abbrev pub set_cell : Ref → Cell → List Cell → List Cell
  set_cell r new [] = []
  set_cell zero new (c ∷ cs) = new ∷ cs
  set_cell (suc r) new (c ∷ cs) = c ∷ set_cell r new cs

  unfoldable pub new_cache : AccountCache
  new_cache = record { entries = []; cells = [] }

  unfoldable pub cache_len : AccountCache → ℕ
  cache_len c = length c.entries

  unfoldable pub is_empty : AccountCache → Bool
  unfolding cache_len
  is_empty c = nat_beq (cache_len c) 0

  unfoldable pub key_from_multibase : String → Result VladHash Error
  key_from_multibase vlad_multibase = decode_vlad vlad_multibase >>= λ vlad. ok (vlad_hash vlad)

  unfoldable pub key_from_vlad : Vlad → VladHash
  key_from_vlad vlad = vlad_hash vlad

  -- A fresh cell, and the map's entry pointed to it.
  unfoldable pub insert_by_hash : VladHash → PlogAccount → AccountCache → AccountCache
  insert_by_hash key account c = record {
    entries = Dict.insert key (length c.cells) c.entries;
    cells = c.cells ++ record { account = account; poisoned = false } ∷ [];
  }

  unfoldable pub insert : String → PlogAccount → AccountCache → Result AccountCache Error
  unfolding insert_by_hash
  insert vlad_multibase account c =
      key_from_multibase vlad_multibase >>= λ key. ok (insert_by_hash key account c)

  unfoldable pub get_by_hash : VladHash → AccountCache → Result Ref Error
  get_by_hash key c = ok_or (account_not_cached (hash_hex_short key)) (Dict.lookup key c.entries)

  unfoldable pub get : String → AccountCache → Result Ref Error
  unfolding get_by_hash
  get vlad_multibase c = key_from_multibase vlad_multibase >>= λ key. get_by_hash key c

  unfoldable pub contains : String → AccountCache → Result Bool Error
  contains vlad_multibase c =
      key_from_multibase vlad_multibase >>= λ key. ok (Dict.contains_key key c.entries)

  -- The removal of a key that is there, or the error.
  unfoldable pub remove_by_hash : VladHash → AccountCache → Result AccountCache Error
  remove_by_hash key c =
      ok_or (account_not_cached (hash_hex_short key)) (Dict.lookup key c.entries) >>= λ _.
      ok (record c { entries = Dict.remove key c.entries })

  unfoldable pub remove : String → AccountCache → Result AccountCache Error
  unfolding remove_by_hash
  remove vlad_multibase c = key_from_multibase vlad_multibase >>= λ key. remove_by_hash key c

  -- How many were removed, and the empty map. References that are still held keep their cells.
  unfoldable pub clear : AccountCache → ℕ × AccountCache
  clear c = (length c.entries, record c { entries = [] })
