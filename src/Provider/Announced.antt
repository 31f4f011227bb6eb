-- ===== src/Provider/Announced.antt =====
-- What an event says of the module's state.
use logos_accounts.Prelude.{
  ℕ, String, ◌≡◌, refl, false, Option, none, some, List, [], ◌++◌, Result, ok, err, In, here, there,
  Result-cases, inl, inr, ==_refl, bytes_eq,
}
use logos_accounts.Error.{Error}
use logos_accounts.Externals.{Externals}
use logos_accounts.Plog.{AccountSummary}
use logos_accounts.Account.{
  PlogAccount, UpdateKind, current_head_cid, entry_update, delegate, revoke,
}
use logos_accounts.Account.Committing as Committing
use logos_accounts.Account.Trust.{commit_update-Reported}
use logos_accounts.Cache.{VladHash, key_from_multibase}
use logos_accounts.Cache.View as View
use logos_accounts.Cache.View.{view}
use logos_accounts.Provider.{
  Event, account_updated, Json, AccountsModule, locked, run_on, with_account_mut, summary_json,
  text_or_error, err_json,
}
use logos_accounts.Provider.Updates.{commit_reply, path_events, commit_update}
use logos_accounts.Provider.Locked.{locked-Found}

module _ ⦃x : Externals⦄ (json : Json) where
  open json use {summary_text}

  error_only :
      (head : String) (r : Result String String)
      → ¬ In (account_updated head) (text_or_error json r).events
  unfolding text_or_error err_json
  error_only head (ok t) i = elim i [ ]
  error_only head (err e) (here same) = cc
  error_only head (err e) (there i) = elim i [ ]

  path_only :
      (head vlad : String) (kind : UpdateKind) (path : Option String) (rest : List Event)
      → In (account_updated head) (path_events json kind path vlad ++ rest)
      → In (account_updated head) rest
  unfolding path_events
  path_only head vlad entry_update path rest i = i
  path_only head vlad delegate none rest i = i
  path_only head vlad revoke none rest i = i
  path_only head vlad delegate (some p) rest (here same) = absurd (cc)
  path_only head vlad delegate (some p) rest (there i) = i
  path_only head vlad revoke (some p) rest (here same) = absurd (cc)
  path_only head vlad revoke (some p) rest (there i) = i

  -- The update that a reply announces.
  announced :
      (head : String) (r : Result (AccountSummary × UpdateKind × Option String) Error)
      → In (account_updated head) (commit_reply json r).events
      → (s : AccountSummary) × (kind : UpdateKind) × (path : Option String) × (r
          ≡ ok (s, kind, path))
        × (s.head_cid ≡ head)
  unfolding commit_reply
  announced head (err e) i = absurd (error_only head (err _) (unfold text_or_error in i))
  announced head (ok (s, kind, path)) (here same) = (s, kind, path, refl, (cc))
  announced head (ok (s, kind, path)) (there i) = absurd (
      error_only head (summary_text s)
        (path_only head s.vlad kind path _ (unfold summary_json in i)))

  -- The account at which a text's update arrived.
  pub record Updated (vlad head : String) (m : AccountsModule) : Type 0 where
    pub hash : VladHash
    pub hashed : key_from_multibase vlad ≡ ok hash
    pub account : PlogAccount
    pub held : view hash m.cache ≡ some (record { account = account; poisoned = false })
    pub at_head : current_head_cid account ≡ head
    pub emptied : account.pending ≡ []

  -- Where the cache is valid: if the module's commit emits `account_updated` with a head, then the
  -- module now holds, under the hash that the VLAD text stands for, an account whose head is the
  -- one named, and that account has no challenge pending.
  pub commit_update-Updated :
      (now : ℕ) (vlad id signature head : String) (m : AccountsModule)
      → View.IsValid m.cache
      → In (account_updated head) (commit_update json now vlad id signature m).0.events
      → Updated vlad head (commit_update json now vlad id signature m).1
  unfolding commit_update with_account_mut
  commit_update-Updated now vlad id signature head m v = elim (Result-cases (locked json vlad m)) [
    | inr (e, shut) ↦
        rw (shut, run_on) λ i. absurd (error_only head (err e) (unfold text_or_error in i))
    | inl ((r, account), e) ↦
        let f = locked-Found json vlad m r account e in
        let after = Committing.commit_update now id signature account in
        rw (e, run_on)
          λ i.
            let (s, kind, path, done, named) = announced head after.0 i in
            let told = commit_update-Reported now id signature account s kind path done in
            record {
              hash = f.hash;
              hashed = f.hashed;
              account = after.1;
              held = rw (View.view-write_cell f.hash f.hash r _ v f.indexed, ==_refl f.hash) refl;
              at_head = rw (← told.at_head) named;
              emptied = told.emptied;
            }
  ]
