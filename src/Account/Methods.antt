-- ===== src/Account/Methods.antt =====
-- Every method keeps the account's invariant.
use logos_accounts.Prelude.{◌≡◌, refl, inl, inr, Option, List, Result, ok, err, arith, Result-cases}
use logos_accounts.Error.{Error}
use logos_accounts.Externals.{Externals, Entry, Script}
use logos_accounts.EntryUpdate.{UnsignedUpdate, prepare_next_entry}
use logos_accounts.Request.{lock_spec_to_scripts}
use logos_accounts.Account.{
  Ambient, PrepareEntrySpec, PlogAccount, purge_expired_challenges, assemble, head_entry, next_spec,
  prepare_entry, pending_of, new_challenge_id,
}
use logos_accounts.Account.Specs.{prepared}
use logos_accounts.Account.Prepare.{outcome, prepare_entry-outcome}
use logos_accounts.Account.Invariant.{IsValid, purge-IsValid, insert-IsValid}

module _ ⦃x : Externals⦄ where
  open x use {try_append, try_build_with_proof, multisig_to_bytes}

  -- How an assembly that succeeded went.
  pub record Assembled (spec : PrepareEntrySpec) (account : PlogAccount) (u : UnsignedUpdate)
      : Type 0 where
    pub head : Entry
    pub next_locks : Option (List Script)
    pub head_read : head_entry account ≡ ok head
    pub locks_built : lock_spec_to_scripts head spec.locks ≡ ok next_locks
    pub entry_built : prepare_next_entry account.log (next_spec spec next_locks) ≡ ok u

  pub assemble-Assembled :
      (spec : PrepareEntrySpec) (account : PlogAccount) (u : UnsignedUpdate)
      → assemble spec account ≡ ok u
      → Assembled spec account u
  unfolding assemble
  assemble-Assembled spec account u h = elim (Result-cases (head_entry account)) [
    | inr (e, eh) ↦ absurd (ground (arith, eh))
    | inl (head, eh) ↦ elim (Result-cases (lock_spec_to_scripts head spec.locks)) [
      | inr (e, el) ↦ absurd (ground (arith, eh, el))
      | inl (l, el) ↦ record {
        head = head;
        next_locks = l;
        head_read = eh;
        locks_built = el;
        entry_built = ground (arith, eh, el);
      }
    ]
  ]

  outcome-IsValid :
      (env : Ambient) (spec : PrepareEntrySpec) (a : PlogAccount) (r : Result UnsignedUpdate Error)
      → assemble spec a ≡ r
      → IsValid a
      → IsValid (outcome env spec a r).1
  outcome-IsValid env spec a (ok u) e v =
      let made : Assembled spec a u = assemble-Assembled spec a u e in
      insert-IsValid (new_challenge_id env.random) (pending_of env spec u a) v
        (unfold pending_of in record { at_head = refl; spec = _; assembled = made.entry_built })
  outcome-IsValid env spec a (err e) h v = v

  pub prepare_entry-IsValid :
      (env : Ambient) (spec : PrepareEntrySpec) {account : PlogAccount}
      → IsValid account
      → IsValid (prepare_entry env spec account).1
  prepare_entry-IsValid env spec {account} v =
      let a = purge_expired_challenges env.now account in
      rw (prepare_entry-outcome env spec account)
        (outcome-IsValid env spec a (assemble spec a) refl (purge-IsValid env.now v))

  pub prepared-IsValid :
      (env : Ambient) (r : Result PrepareEntrySpec Error) {account : PlogAccount}
      → IsValid account
      → IsValid (prepared env r account).1
  prepared-IsValid env (ok spec) v = prepare_entry-IsValid env spec v
  prepared-IsValid env (err e) v = v
