-- ===== src/Dispatch/Sessions.antt =====
-- Every sequence of calls leaves the module sound.
use logos_accounts.Prelude.{String, Bool-cases, inl, inr, Option, none, some, List, ltb, length}
use logos_accounts.Externals.{Externals}
use logos_accounts.Externals.Laws.{AppendLaws, VladLaws}
use logos_accounts.Cache.{new_cache}
use logos_accounts.Cache.View as View
use logos_accounts.Provider.{Json, AccountsModule, default_module}
use logos_accounts.Provider.Held.{HoldsSound}
use logos_accounts.Provider.Opened.{
  create_account-HoldsSound, import_plog-HoldsSound, remove_plog-HoldsSound, clear_cache-HoldsSound,
}
use logos_accounts.Provider.Kept.{
  export_plog-HoldsSound, get_value-HoldsSound, list_delegations-HoldsSound,
  prepare_update-HoldsSound, prepare_delegate-HoldsSound, prepare_revoke-HoldsSound,
  commit_update-HoldsSound, cancel_update-HoldsSound,
}
use logos_accounts.Dispatch.{
  Method, create_account, import_plog, export_plog, remove_plog, clear_cache, get_value,
  list_delegations, prepare_update, prepare_delegate, prepare_revoke, commit_update, cancel_update,
  Arg, Surroundings, arity, call, dispatch_known, dispatch_impl, instance_or_default, method_of,
}

module _ ⦃x : Externals⦄ (json : Json) where
  default_module-HoldsSound : HoldsSound default_module
  unfolding default_module new_cache
  default_module-HoldsSound = record { valid = View.new_cache-IsValid; sound = λ h c e. cc }

  call-HoldsSound :
      AppendLaws
      → VladLaws
      → (w : Surroundings) (k : Method) (args : List Arg) (m : AccountsModule) → HoldsSound m
      → HoldsSound (call json w k args m).1
  unfolding call
  call-HoldsSound appends vlads w create_account args m s =
      create_account-HoldsSound json vlads w.open_plog w.gen _ m s
  call-HoldsSound appends vlads w import_plog args m s = import_plog-HoldsSound json vlads _ m s
  call-HoldsSound appends vlads w export_plog args m s = export_plog-HoldsSound json _ m s
  call-HoldsSound appends vlads w remove_plog args m s = remove_plog-HoldsSound json _ m s
  call-HoldsSound appends vlads w clear_cache args m s = clear_cache-HoldsSound json m
  call-HoldsSound appends vlads w get_value args m s = get_value-HoldsSound json _ _ m s
  call-HoldsSound appends vlads w list_delegations args m s = list_delegations-HoldsSound json _ m s
  call-HoldsSound appends vlads w prepare_update args m s =
      prepare_update-HoldsSound json w.from_str w.env _ _ m s
  call-HoldsSound appends vlads w prepare_delegate args m s =
      prepare_delegate-HoldsSound json w.env _ _ _ m s
  call-HoldsSound appends vlads w prepare_revoke args m s =
      prepare_revoke-HoldsSound json w.env _ _ m s
  call-HoldsSound appends vlads w commit_update args m s =
      commit_update-HoldsSound json appends w.now _ _ _ m s
  call-HoldsSound appends vlads w cancel_update args m s =
      cancel_update-HoldsSound json w.now _ _ m s

  dispatch_known-HoldsSound :
      AppendLaws
      → VladLaws
      → (w : Surroundings) (k : Option Method) (args : List Arg) (m : AccountsModule) → HoldsSound m
      → HoldsSound (dispatch_known json w k args m).1
  unfolding dispatch_known
  dispatch_known-HoldsSound appends vlads w none args m s = s
  dispatch_known-HoldsSound appends vlads w (some k) args m s =
      elim (Bool-cases (ltb (length args) (arity k))) [
        | inl few ↦ rw few s
        | inr enough ↦ rw enough (call-HoldsSound appends vlads w k args m s)
      ]

  dispatch_impl-HoldsSound :
      AppendLaws
      → VladLaws
      → (w : Surroundings) (name : String) (args : List Arg) (slot : Option AccountsModule)
      → HoldsSound (instance_or_default slot)
      → HoldsSound (dispatch_impl json w name args slot).1
  unfolding dispatch_impl
  dispatch_impl-HoldsSound appends vlads w name args slot s =
      dispatch_known-HoldsSound appends vlads w (method_of name) args (instance_or_default slot) s

  -- The states that calls lead to, from no instance at all.
  pub data Reachable : Option AccountsModule → Type 0 where
    start : Reachable none
    step :
        {slot : Option AccountsModule} (w : Surroundings) (name : String) (args : List Arg)
        → Reachable slot
        → Reachable (some (dispatch_impl json w name args slot).1)

  -- After any sequence of calls, with any method names and arguments, every account that the
  -- module holds has a verified log, stands under the hash of its log's VLAD, and has only
  -- challenges that were assembled on its current log. This rests on an append that verifies what
  -- it accepts and keeps what it refuses, and on VLADs whose text decodes.
  pub Reachable-HoldsSound :
      AppendLaws
      → VladLaws
      → {slot : Option AccountsModule} → Reachable slot
      → HoldsSound (instance_or_default slot)
  unfolding instance_or_default
  Reachable-HoldsSound appends vlads start = default_module-HoldsSound
  Reachable-HoldsSound appends vlads (step {slot} w name args r) =
      dispatch_impl-HoldsSound appends vlads w name args slot (Reachable-HoldsSound appends vlads r)
