-- ===== src/Dispatch/Local.antt =====
-- How far a call reaches: the accounts of all VLADs but one are left alone.
use logos_accounts.Prelude.{
  String, ◌≡◌, refl, ◌∙◌, ◌≢◌, Bool-cases, inl, inr, Option, none, some, List, [], Result, ok, err,
  Result-cases, ltb, length, bytes_eq, ==_ne, >>=-eq-ok,
}
use logos_accounts.Error.{Error}
use logos_accounts.Externals.{Externals}
use logos_accounts.Plog.{AccountSummary}
use logos_accounts.Account.{PlogAccount}
use logos_accounts.Cache.{VladHash, AccountCache, key_from_multibase, insert_by_hash}
use logos_accounts.Cache as Cache
use logos_accounts.Cache.View as View
use logos_accounts.Cache.View.{view}
use logos_accounts.Provider.{Json, Output, AccountsModule, locked, with_account_mut, run_on}
use logos_accounts.Provider.Locked.{locked-Found}
use logos_accounts.Provider.Logs.{
  create_account, import_plog, export_plog, remove_plog, get_value, list_delegations, created_reply,
  imported_reply, insert_opened, inserted_reply, removed_reply,
}
use logos_accounts.Provider.Updates.{
  prepare_update, prepare_delegate, prepare_revoke, commit_update, cancel_update,
}
use logos_accounts.Dispatch as Dispatch
use logos_accounts.Dispatch.{
  Method, Arg, Surroundings, method_of, arity, call, dispatch_known, dispatch_impl,
  instance_or_default,
}

module _ ⦃x : Externals⦄ where
  -- What is held under every hash but one is as before.
  pub record IsLocal (m after : AccountsModule) : Type 0 where
    pub key : VladHash
    pub kept : (h : VladHash) → key ≢ h → view h after.cache ≡ view h m.cache

  same-IsLocal : (m : AccountsModule) → IsLocal m m
  same-IsLocal m = record { key = []; kept = λ h other. refl }

  module _ (json : Json) where
    with_account_mut-IsLocal :
        (vlad : String) (f : PlogAccount → Output × PlogAccount) (m : AccountsModule)
        → View.IsValid m.cache
        → IsLocal m (with_account_mut json vlad f m).1
    unfolding with_account_mut
    with_account_mut-IsLocal vlad f m v = elim (Result-cases (locked json vlad m)) [
      | inr (e, shut) ↦ rw (shut, run_on) (same-IsLocal m)
      | inl ((r, account), e) ↦
          let found = locked-Found json vlad m r account e in
          rw (e, run_on)
            (record {
              key = found.hash;
              kept = λ h other.
                  View.view-write_cell found.hash h r _ v found.indexed
                  ∙ (rw (==_ne found.hash h other) refl);
            })
    ]

    insert_opened-IsLocal :
        (account : PlogAccount) (summary : AccountSummary) (m : AccountsModule)
        → View.IsValid m.cache
        → IsLocal m (insert_opened json summary account m).1
    unfolding insert_opened inserted_reply Cache.insert
    insert_opened-IsLocal account summary m v =
        elim (Result-cases (key_from_multibase summary.vlad)) [
          | inr (e, bad) ↦ rw bad (same-IsLocal m)
          | inl (key, hashed) ↦ rw hashed (record {
            key = key;
            kept =
                λ h other. View.view-insert_by_hash key h account v ∙ (rw (==_ne key h other) refl);
          })
        ]

    created-IsLocal :
        (r : Result (PlogAccount × AccountSummary) Error) (m : AccountsModule)
        → View.IsValid m.cache
        → IsLocal m (created_reply json r m).1 × IsLocal m (imported_reply json r m).1
    unfolding created_reply imported_reply
    created-IsLocal (ok (account, summary)) m v =
        (insert_opened-IsLocal account summary m v, insert_opened-IsLocal account summary m v)
    created-IsLocal (err e) m v = (same-IsLocal m, same-IsLocal m)

    removed_reply-IsLocal :
        (r : Result AccountCache Error) (m : AccountsModule)
        → ((cache : AccountCache) → r ≡ ok cache → IsLocal m (record m { cache = cache }))
        → IsLocal m (removed_reply json r m).1
    unfolding removed_reply
    removed_reply-IsLocal (ok cache) m after = after cache refl
    removed_reply-IsLocal (err e) m after = same-IsLocal m

    remove_plog-IsLocal :
        (vlad : String) (m : AccountsModule) → IsLocal m (remove_plog json vlad m).1
    unfolding remove_plog Cache.remove
    remove_plog-IsLocal vlad m = removed_reply-IsLocal (Cache.remove vlad m.cache) m λ cache e.
        let (key, hashed, gone) = >>=-eq-ok (key_from_multibase vlad) _ e in
        record {
          key = key;
          kept = λ h other.
              View.view-remove_by_hash key h m.cache cache gone ∙ (rw (==_ne key h other) refl);
        }

    call-IsLocal :
        (w : Surroundings) (k : Method) (args : List Arg) (m : AccountsModule)
        → k ≢ Dispatch.clear_cache
        → View.IsValid m.cache
        → IsLocal m (call json w k args m).1
    unfolding call create_account import_plog export_plog get_value list_delegations prepare_update
        prepare_delegate prepare_revoke commit_update cancel_update
    call-IsLocal w Dispatch.create_account args m n v = (created-IsLocal _ m v).0
    call-IsLocal w Dispatch.import_plog args m n v = (created-IsLocal _ m v).1
    call-IsLocal w Dispatch.export_plog args m n v = with_account_mut-IsLocal _ _ m v
    call-IsLocal w Dispatch.remove_plog args m n v = remove_plog-IsLocal _ m
    call-IsLocal w Dispatch.clear_cache args m n v = absurd (n refl)
    call-IsLocal w Dispatch.get_value args m n v = with_account_mut-IsLocal _ _ m v
    call-IsLocal w Dispatch.list_delegations args m n v = with_account_mut-IsLocal _ _ m v
    call-IsLocal w Dispatch.prepare_update args m n v = with_account_mut-IsLocal _ _ m v
    call-IsLocal w Dispatch.prepare_delegate args m n v = with_account_mut-IsLocal _ _ m v
    call-IsLocal w Dispatch.prepare_revoke args m n v = with_account_mut-IsLocal _ _ m v
    call-IsLocal w Dispatch.commit_update args m n v = with_account_mut-IsLocal _ _ m v
    call-IsLocal w Dispatch.cancel_update args m n v = with_account_mut-IsLocal _ _ m v

    dispatch_known-IsLocal :
        (w : Surroundings) (k : Option Method) (args : List Arg) (m : AccountsModule)
        → k ≢ some Dispatch.clear_cache
        → View.IsValid m.cache
        → IsLocal m (dispatch_known json w k args m).1
    unfolding dispatch_known
    dispatch_known-IsLocal w none args m n v = same-IsLocal m
    dispatch_known-IsLocal w (some k) args m n v = elim (Bool-cases (ltb (length args) (arity k))) [
      | inl few ↦ rw few (same-IsLocal m)
      | inr enough ↦ rw enough (call-IsLocal w k args m (λ e. n (λ i. some (e i))) v)
    ]

    -- In a module with a valid cache, a call of any method but `clear_cache`, with any arguments,
    -- leaves what is held under every hash but one as it was.
    pub dispatch_impl-IsLocal :
        (w : Surroundings) (name : String) (args : List Arg) (slot : Option AccountsModule)
        → method_of name ≢ some Dispatch.clear_cache
        → View.IsValid (instance_or_default slot).cache
        → IsLocal (instance_or_default slot) (dispatch_impl json w name args slot).1
    unfolding dispatch_impl
    dispatch_impl-IsLocal w name args slot n v =
        dispatch_known-IsLocal w (method_of name) args (instance_or_default slot) n v
