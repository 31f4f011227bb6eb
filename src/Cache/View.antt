-- ===== src/Cache/View.antt =====
-- The cache as a partial function from hashes to accounts, and each operation on it.
use logos_accounts.Prelude.{
  zero, suc, String, >>=-eq-ok, ◌+◌, ◌<◌, ◌≡◌, refl, ◌≢◌, Bool-cases, Option-cases, inl, inr, false,
  Option, none, some, List, [], ◌∷◌, ◌++◌, ok, ◌==◌, bytes_eq, length, length-append, arith,
  if◌then◌else◌, ==_iff,
}
use logos_accounts.Prelude.Dict.{
  lookup, lookup-insert, remove, lookup-remove, insert-IsDistinct, remove-IsDistinct, IsDistinct,
}
use logos_accounts.Externals.{Externals}
use logos_accounts.Account.{PlogAccount}
use logos_accounts.Cache.{
  VladHash, Ref, Cell, AccountCache, new_cache, get_cell, set_cell, insert_by_hash, remove_by_hash,
  clear, get, key_from_multibase,
}

module _ ⦃x : Externals⦄ where
  get_cell_last : (cs : List Cell) (c : Cell) → get_cell (length cs) (cs ++ c ∷ []) ≡ some c
  get_cell_last [] c = refl
  get_cell_last (d ∷ cs) c = get_cell_last cs c

  get_cell-append :
      (r : Ref) (cs : List Cell) (c : Cell)
      → r < length cs
      → get_cell r (cs ++ c ∷ []) ≡ get_cell r cs
  get_cell-append r [] c h = absurd (omega arith)
  get_cell-append zero (d ∷ cs) c h = refl
  get_cell-append (suc r) (d ∷ cs) c h = get_cell-append r cs c (omega arith)

  get_cell-set_cell :
      (r : Ref) (new : Cell) (cs : List Cell)
      → r < length cs
      → get_cell r (set_cell r new cs) ≡ some new
  get_cell-set_cell r new [] h = absurd (omega arith)
  get_cell-set_cell zero new (d ∷ cs) h = refl
  get_cell-set_cell (suc r) new (d ∷ cs) h = get_cell-set_cell r new cs (omega arith)

  get_cell-set_cell_other :
      (r s : Ref) (new : Cell) (cs : List Cell)
      → r ≢ s
      → get_cell s (set_cell r new cs) ≡ get_cell s cs
  get_cell-set_cell_other r s new [] h = refl
  get_cell-set_cell_other zero zero new (d ∷ cs) h = absurd (h refl)
  get_cell-set_cell_other zero (suc s) new (d ∷ cs) h = refl
  get_cell-set_cell_other (suc r) zero new (d ∷ cs) h = refl
  get_cell-set_cell_other (suc r) (suc s) new (d ∷ cs) h =
      get_cell-set_cell_other r s new cs (λ e. h (omega arith))

  length-set_cell : (r : Ref) (new : Cell) (cs : List Cell) → length (set_cell r new cs) ≡ length cs
  length-set_cell r new [] = refl
  length-set_cell zero new (d ∷ cs) = refl
  length-set_cell (suc r) new (d ∷ cs) = omega (arith, length-set_cell r new cs)

  -- The map has each hash once, and its references name cells of their own.
  pub record IsValid (c : AccountCache) : Type 0 where
    pub distinct : IsDistinct c.entries
    pub in_range : (h : VladHash) (r : Ref) → lookup h c.entries ≡ some r → r < length c.cells
    pub owned :
        (h h' : VladHash) (r : Ref)
        → lookup h c.entries ≡ some r
        → lookup h' c.entries ≡ some r
        → h ≡ h'

  pub new_cache-IsValid : IsValid new_cache
  unfolding new_cache
  new_cache-IsValid = record { distinct = tt; in_range = λ h r e. cc; owned = λ h h' r e e'. cc }

  abbrev pub cell_of : Option Ref → List Cell → Option Cell
  cell_of none cs = none
  cell_of (some r) cs = get_cell r cs

  -- What the cache holds for a hash.
  abbrev pub view : VladHash → AccountCache → Option Cell
  view h c = cell_of (lookup h c.entries) c.cells

  -- A cell replaced where its reference points.
  abbrev pub write_cell : Ref → Cell → AccountCache → AccountCache
  write_cell r new c = record c { cells = set_cell r new c.cells }

  abbrev fresh_cell : PlogAccount → Cell
  fresh_cell account = record { account = account; poisoned = false }

  cell_of-append :
      (h : VladHash) (new : Cell) {c : AccountCache}
      → IsValid c
      → cell_of (lookup h c.entries) (c.cells ++ new ∷ []) ≡ view h c
  cell_of-append h new {c} v = elim (Option-cases (lookup h c.entries)) [
    | inl absent ↦ rw absent refl
    | inr (r, present) ↦ rw present (get_cell-append r c.cells new (v.in_range h r present))
  ]

  -- In a valid cache, an insertion under a hash sets what the cache holds there to the new
  -- account, and leaves what it holds under every other hash.
  pub view-insert_by_hash :
      (key h : VladHash) (account : PlogAccount) {c : AccountCache}
      → IsValid c
      → view h (insert_by_hash key account c)
        ≡ (if key == h then some (record { account = account; poisoned = false }) else view h c)
  unfolding insert_by_hash
  view-insert_by_hash key h account {c} v = elim (Bool-cases (key == h)) [
    | inl same ↦
        rw (lookup-insert key h (length c.cells) c.entries, same)
          (get_cell_last c.cells (fresh_cell account))
    | inr differ ↦
        rw (lookup-insert key h (length c.cells) c.entries, differ)
          (cell_of-append h (fresh_cell account) v)
  ]

  pub insert_by_hash-IsValid :
      (key : VladHash) (account : PlogAccount) {c : AccountCache}
      → IsValid c
      → IsValid (insert_by_hash key account c)
  unfolding insert_by_hash
  insert_by_hash-IsValid key account {c} v =
      let n = length c.cells in
      let grown : length (c.cells ++ fresh_cell account ∷ []) ≡ n + 1 =
        length-append c.cells (fresh_cell account ∷ []) in
      record {
        distinct = insert-IsDistinct key n c.entries v.distinct;
        in_range = λ h r e. ground (arith, lookup-insert key h n c.entries, v.in_range h r, grown);
        owned = λ h h' r e e'. ground (
          arith,
          lookup-insert key h n c.entries,
          lookup-insert key h' n c.entries,
          ==_iff key h,
          ==_iff key h',
          v.in_range h r,
          v.in_range h' r,
          v.owned h h' r,
        );
      }

  abbrev without : VladHash → AccountCache → AccountCache
  without key c = record c { entries = remove key c.entries }

  remove_by_hash_ok :
      (key : VladHash) (c c' : AccountCache) → remove_by_hash key c ≡ ok c' → c' ≡ without key c
  unfolding remove_by_hash
  remove_by_hash_ok key c c' e = elim (Option-cases (lookup key c.entries)) [
    | inl absent ↦ ground (arith, absent, e)
    | inr (r, present) ↦ ground (arith, present, e)
  ]

  -- A removal, where it succeeds, takes its hash away, and no other.
  pub view-remove_by_hash :
      (key h : VladHash) (c c' : AccountCache)
      → remove_by_hash key c ≡ ok c'
      → view h c' ≡ (if key == h then none else view h c)
  view-remove_by_hash key h c c' e =
      rw (remove_by_hash_ok key c c' e) (elim (Bool-cases (key == h)) [
        | inl same ↦ rw (lookup-remove key h c.entries, same) refl
        | inr differ ↦ rw (lookup-remove key h c.entries, differ) refl
      ])

  pub remove_by_hash-IsValid :
      (key : VladHash) (c c' : AccountCache) → IsValid c → remove_by_hash key c ≡ ok c' → IsValid c'
  remove_by_hash-IsValid key c c' v e = rw (remove_by_hash_ok key c c' e) (record {
    distinct = remove-IsDistinct key c.entries v.distinct;
    in_range = λ h r p. ground (arith, lookup-remove key h c.entries, v.in_range h r);
    owned = λ h h' r p p'.
        ground
          (arith, lookup-remove key h c.entries, lookup-remove key h' c.entries, v.owned h h' r);
  })

  pub clear-IsValid : (c : AccountCache) → IsValid (clear c).1
  unfolding clear
  clear-IsValid c = record { distinct = tt; in_range = λ h r e. cc; owned = λ h h' r e e'. cc }

  -- A write through a reference changes the account of the hash that holds it, and no other.
  pub view-write_cell :
      (key h : VladHash) (r : Ref) (new : Cell) {c : AccountCache}
      → IsValid c
      → lookup key c.entries ≡ some r
      → view h (write_cell r new c) ≡ (if key == h then some new else view h c)
  view-write_cell key h r new {c} v present = elim (Bool-cases (key == h)) [
    | inl same ↦
        rw (same, ← (==_iff key h).0 same, present)
          (get_cell-set_cell r new c.cells (v.in_range key r present))
    | inr differ ↦ elim (Option-cases (lookup h c.entries)) [
      | inl absent ↦ rw (differ, absent) refl
      | inr (s, found) ↦
          rw (differ, found)
            (get_cell-set_cell_other r s new c.cells
              (λ e. ground (arith, v.owned key h r present, e, found, ==_iff key h, differ)))
    ]
  ]

  pub write_cell-IsValid :
      (r : Ref) (new : Cell) {c : AccountCache} → IsValid c → IsValid (write_cell r new c)
  write_cell-IsValid r new {c} v = record {
    distinct = v.distinct;
    in_range = λ h s e. omega (arith, length-set_cell r new c.cells, v.in_range h s e);
    owned = v.owned;
  }

  -- A text that the cache finds an account for.
  pub get-eq-ok :
      (vlad : String) (c : AccountCache) (r : Ref)
      → get vlad c ≡ ok r
      → (h : VladHash) × (key_from_multibase vlad ≡ ok h) × (lookup h c.entries ≡ some r)
  unfolding get
  get-eq-ok vlad c r e =
      let (h, hashed, found) = >>=-eq-ok (key_from_multibase vlad) _ e in
      elim (Option-cases (lookup h c.entries)) [
        | inl absent ↦ ground (arith, absent, found)
        | inr (s, present) ↦ (h, hashed, ground (arith, present, found))
      ]
