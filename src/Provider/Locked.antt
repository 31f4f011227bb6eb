-- ===== src/Provider/Locked.antt =====
-- The account that a method locks, and what it stores back.
use logos_accounts.Prelude.{
  String, ◌≡◌, refl, sym, subst, ◌≢◌, ==_ne, ◌∙◌, Bool-cases, false, inl, inr, Option, none, some,
  ok, arith, Result-cases, ◌==◌, bytes_eq, ==_iff, >>=-eq-ok, map_err-eq-ok,
}
use logos_accounts.Prelude.Dict.{lookup}
use logos_accounts.Error.{to_string}
use logos_accounts.Externals.{Externals}
use logos_accounts.Account.{PlogAccount}
use logos_accounts.Cache.{VladHash, Ref, Cell, get_cell, key_from_multibase}
use logos_accounts.Cache.View as View
use logos_accounts.Cache.View.{view}
use logos_accounts.Provider.{
  Json, Output, AccountsModule, entry, locked, lock_cell, run_on, store, with_account_mut,
}
use logos_accounts.Provider.Held.{IsSound, HoldsSound}

module _ ⦃x : Externals⦄ (json : Json) where
  open x use {log_vlad}

  -- A text finds an account under the hash of its VLAD, and it is the one stored there.
  pub record Found (vlad : String) (m : AccountsModule) (r : Ref) (account : PlogAccount)
      : Type 0 where
    pub hash : VladHash
    pub hashed : key_from_multibase vlad ≡ ok hash
    pub indexed : lookup hash m.cache.entries ≡ some r
    pub held : view hash m.cache ≡ some (record { account = account; poisoned = false })

  lock_cell-eq-ok :
      (o : Option Cell) (account : PlogAccount)
      → lock_cell json o ≡ ok account
      → o ≡ some (record { account = account; poisoned = false })
  unfolding lock_cell
  lock_cell-eq-ok none account h = ground (arith, h)
  lock_cell-eq-ok (some c) account h = elim (Bool-cases c.poisoned) [
    | inl poisoned ↦ ground (arith, poisoned, h)
    | inr clean ↦
        let same : c.account ≡ account = ground (arith, clean, h) in
        λ i. some (record { account = same i; poisoned = clean i })
  ]

  pub locked-Found :
      (vlad : String) (m : AccountsModule) (r : Ref) (account : PlogAccount)
      → locked json vlad m ≡ ok (r, account)
      → Found vlad m r account
  unfolding locked entry
  locked-Found vlad m r account h =
      let (s, named, rest) = >>=-eq-ok (entry vlad m) _ h in
      let (a, opened, pair) = >>=-eq-ok (lock_cell json (get_cell s m.cache.cells)) _ rest in
      let same : (s ≡ r) × (a ≡ account) = ground (arith, pair) in
      let (hash, hashed, indexed) =
        View.get-eq-ok vlad m.cache s (map_err-eq-ok to_string _ named) in
      record {
        hash = hash;
        hashed = hashed;
        indexed = rw (← same.0) indexed;
        held = rw (← same.1, indexed) (lock_cell-eq-ok _ a opened);
      }

  store-HoldsSound :
      (vlad : String) (r : Ref) (account after : PlogAccount) (m : AccountsModule)
      → HoldsSound m
      → Found vlad m r account
      → ((h : VladHash) → IsSound h account → IsSound h after)
      → HoldsSound (store json r after m)
  store-HoldsSound vlad r account after m s f keep = record {
    valid = View.write_cell-IsValid r _ s.valid;
    sound = λ h c e. elim (Bool-cases (f.hash == h)) [
      | inl same ↦
          let new : some (record { account = after; poisoned = false }) ≡ some c =
            rw (View.view-write_cell f.hash h r _ s.valid f.indexed, same) at e in
          let old : IsSound h account =
            subst (λ k. IsSound k account) ((==_iff f.hash h).0 same) (s.sound f.hash _ f.held) in
          let is : record { account = after; poisoned = false } ≡ c = cc in rw (← is) (keep h old)
      | inr differ ↦
          s.sound h c (rw (View.view-write_cell f.hash h r _ s.valid f.indexed, differ) at e)
    ];
  }

  pub with_account_mut-HoldsSound :
      (vlad : String) (f : PlogAccount → Output × PlogAccount) (m : AccountsModule)
      → ((h : VladHash) (account : PlogAccount) → IsSound h account → IsSound h (f account).1)
      → HoldsSound m
      → HoldsSound (with_account_mut json vlad f m).1
  unfolding with_account_mut run_on
  with_account_mut-HoldsSound vlad f m keep s = elim (Result-cases (locked json vlad m)) [
    | inl ((r, account), e) ↦ rw e (
        store-HoldsSound vlad r account (f account).1 m s (locked-Found vlad m r account e)
          (λ h. keep h account))
    | inr (e, bad) ↦ rw bad s
  ]

  -- Where the cache is valid and a VLAD text stands for a hash: whatever a method does to that
  -- VLAD's account, the cache holds the same as before under every other hash.
  pub with_account_mut_other :
      (vlad : String) (f : PlogAccount → Output × PlogAccount) (m : AccountsModule)
      (key h : VladHash)
      → View.IsValid m.cache
      → key_from_multibase vlad ≡ ok key
      → key ≢ h
      → view h (with_account_mut json vlad f m).1.cache ≡ view h m.cache
  unfolding with_account_mut
  with_account_mut_other vlad f m key h v hashed other = elim (Result-cases (locked json vlad m)) [
    | inr (e, shut) ↦ rw (shut, run_on) refl
    | inl ((r, account), e) ↦
        let found = locked-Found vlad m r account e in
        let same : found.hash ≡ key = ground (arith, found.hashed, hashed) in
        let differ : (found.hash == h) ≡ false = ==_ne found.hash h (λ e. other (sym same ∙ e)) in
        rw (e, run_on) (View.view-write_cell found.hash h r _ v found.indexed ∙ (rw differ refl))
  ]
