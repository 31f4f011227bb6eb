-- ===== src/Provider/Enacted.antt =====
-- A delegation through the module's methods: prepared, committed and listed, each call with the texts
-- that a client has.
use logos_accounts.Prelude.{
  ℕ, String, ◌≡◌, refl, ap, ◌∙◌, false, Option, some, ok, bytes_eq, ==_refl, arith,
}
use logos_accounts.Prelude.Dict.{lookup}
use logos_accounts.Externals.{Externals}
use logos_accounts.Externals.Laws.{AppendLaws, KeyLaws}
use logos_accounts.Externals.EntryLaws.{EntryLaws, MultikeyLaws}
use logos_accounts.Plog.{AccountSummary}
use logos_accounts.Account.{Ambient, PlogAccount, UpdateChallenge, UpdateKind}
use logos_accounts.Account.Preparing as Preparing
use logos_accounts.Account.Committing as Committing
use logos_accounts.Account.Enact.Delegated.{Delegated, prepare_delegate-Delegated}
use logos_accounts.Cache.{VladHash, key_from_multibase}
use logos_accounts.Cache.View as View
use logos_accounts.Cache.View.{view}
use logos_accounts.Provider.{Json, Output, AccountsModule, run_on, with_account_mut}
use logos_accounts.Provider.Logs.{list_delegations, delegations_reply}
use logos_accounts.Provider.Updates.{prepare_delegate, challenge_reply, commit_update, commit_reply}
use logos_accounts.Provider.Held.{HoldsSound}
use logos_accounts.Provider.Locked.{locked-Found}
use logos_accounts.Provider.Exported.{view-locked}

module _ ⦃x : Externals⦄ (json : Json) where
  -- The cache is valid, and holds the account under the hash that the text stands for.
  pub record Holds (vlad : String) (hash : VladHash) (account : PlogAccount) (m : AccountsModule)
      : Type 0 where
    pub valid : View.IsValid m.cache
    pub hashed : key_from_multibase vlad ≡ ok hash
    pub held : view hash m.cache ≡ some (record { account = account; poisoned = false })

  -- A method on a text for which an account is held works on that account.
  Holds-with_account_mut :
      (vlad : String) (hash : VladHash) (account : PlogAccount) (m : AccountsModule)
      (f : PlogAccount → Output × PlogAccount)
      → Holds vlad hash account m
      → ((with_account_mut json vlad f m).0 ≡ (f account).0)
        × Holds vlad hash (f account).1 (with_account_mut json vlad f m).1
  unfolding with_account_mut
  Holds-with_account_mut vlad hash account m f h =
      let (r, found) = view-locked json vlad m h.hashed h.held in
      let there = locked-Found json vlad m r account found in
      let same : there.hash ≡ hash = ground (arith, there.hashed, h.hashed) in
      let indexed : lookup hash m.cache.entries ≡ some r = rw same at there.indexed in
      rw (found, run_on)
        (
          refl,
          record {
            valid = View.write_cell-IsValid r _ h.valid;
            hashed = h.hashed;
            held = View.view-write_cell hash hash r _ h.valid indexed ∙ (rw (==_refl hash) refl);
          },
        )

  -- What the client sees of a delegation: the text of the challenge, the reply and the events of the
  -- commit, and then a listing with the branch delegated to the key.
  pub record Replies (keys : KeyLaws) (env : Ambient) (vlad path pubkey : String)
      (account : PlogAccount) (c : UpdateChallenge) (now : ℕ) (signature : String)
      (done : AccountSummary × UpdateKind × Option String) (m : AccountsModule) : Type 0 where
    pub after : PlogAccount
    pub delegated : Delegated keys path pubkey account after
    pub challenged : (prepare_delegate json env vlad path pubkey m).0 ≡ challenge_reply json (ok c)
    pub committed :
        (commit_update json now vlad c.challenge_id signature
          (prepare_delegate json env vlad path pubkey m).1).0
        ≡ commit_reply json (ok done)
    pub listed :
        (list_delegations json vlad
          (commit_update json now vlad c.challenge_id signature
            (prepare_delegate json env vlad path pubkey m).1).1).0
        ≡ delegations_reply json (ok delegated.out)

  -- In a sound module that holds an account under a VLAD text: if the account's `prepare_delegate`
  -- returns a challenge and its commit under the challenge's id succeeds, then the module's
  -- `prepare_delegate` replies with that challenge, its `commit_update` with the summary and the
  -- events of the delegation, and its `list_delegations` then with a list that has exactly one key
  -- for the branch's path, the given one. This uses the laws of the append, of keys and key bytes,
  -- and of the locks and operations of entries.
  pub prepare_delegate-Replies :
      AppendLaws
      → EntryLaws
      → (keys : KeyLaws) → MultikeyLaws
      → (env : Ambient) (vlad path pubkey : String) (hash : VladHash) (account : PlogAccount)
        (c : UpdateChallenge) (now : ℕ) (signature : String)
        (done : AccountSummary × UpdateKind × Option String) (m : AccountsModule)
      → HoldsSound m
      → key_from_multibase vlad ≡ ok hash
      → view hash m.cache ≡ some (record { account = account; poisoned = false })
      → (Preparing.prepare_delegate env path pubkey account).0 ≡ ok c
      → (Committing.commit_update now c.challenge_id signature
          (Preparing.prepare_delegate env path pubkey account).1).0
        ≡ ok done
      → Replies keys env vlad path pubkey account c now signature done m
  unfolding prepare_delegate commit_update list_delegations
  prepare_delegate-Replies appends laws keys multikeys env vlad path pubkey hash account c now
        signature done m sound hashed held prepared made =
      let s = sound.sound hash _ held in
      let d =
        prepare_delegate-Delegated appends laws keys multikeys env path pubkey account c now
          signature done s.valid s.verified prepared made in
      let first =
        Holds-with_account_mut vlad hash account m _
          (record { valid = sound.valid; hashed = hashed; held = held }) in
      let second = Holds-with_account_mut vlad hash _ _ _ first.1 in
      let third = Holds-with_account_mut vlad hash _ _ _ second.1 in
      record {
        after = _;
        delegated = d;
        challenged = first.0 ∙ ap (challenge_reply json) prepared;
        committed = second.0 ∙ ap (commit_reply json) made;
        listed = third.0 ∙ ap (delegations_reply json) d.listed;
      }
