-- ===== src/Account/Enact/Listed.antt =====
-- What the listing says after a delegation or a revocation is committed.
use logos_accounts.Prelude.{
  In-filter, In-one, String, ◌≡◌, refl, sym, ◌∙◌, ◌≢◌, true, Bool-cases, inl, inr, some, List, [],
  ◌∷◌, ok, arith, In, ◌==◌,
}
use logos_accounts.Prelude.Dict.{lookup}
use logos_accounts.Externals.{Externals, Entry, Log, Kvp, Key, Script, Value, key_instance}
use logos_accounts.Externals.Laws.{AppendLaws, IsVerified, KeyLaws}
use logos_accounts.Externals.EntryLaws.{EntryLaws, EndsWith}
use logos_accounts.EntryUpdate.{choose_locks}
use logos_accounts.EntryUpdate.Locks.{at_path}
use logos_accounts.Plog.{verified_head}
use logos_accounts.Request.{lock_spec_to_scripts}
use logos_accounts.Plog.Verify.{verified_head-last_entry}
use logos_accounts.Delegations.{PathDelegation, find_grant, grant_text, list_plog_delegations}
use logos_accounts.Delegations.Listed.{Grants, Lists, list_plog_delegations-Lists}
use logos_accounts.Account.{PrepareEntrySpec, PlogAccount, head_entry}
use logos_accounts.Account.Policy.{Replaces}
use logos_accounts.Account.Enact.{Stands}
use logos_accounts.Account.Enact.Committed.{Enacted}

module _ ⦃x : Externals⦄ where
  open x use {script_path, locks, key_to_string, as_str, is_branch, multikey_to_bytes, key_eq}

  pub find_grant-lookup :
      (k : Key) (kvp : Kvp) (v : Value) (s : String)
      → lookup k kvp ≡ some v
      → grant_text v ≡ some s
      → find_grant k kvp ≡ some s
  unfolding find_grant
  find_grant-lookup k [] v s h g = absurd (cc)
  find_grant-lookup k ((k', v') ∷ kvp) v s h g = elim (Bool-cases (k' == k)) [
    | inl same ↦
        let is : v' ≡ v = ground (arith, h, same) in
        let text : grant_text v' ≡ some s = rw is g in rw (same, text) refl
    | inr other ↦ rw other (find_grant-lookup k kvp v s (rw other at h) g)
  ]

  -- The head that the readers see.
  EndsWith-verified_head :
      (log : Log) (entry : Entry) (kvp : Kvp)
      → IsVerified log
      → EndsWith log entry kvp
      → verified_head log ≡ ok (entry, kvp)
  EndsWith-verified_head log entry kvp v e =
      let (head, read, last, same) = verified_head-last_entry log v in
      let is : (entry, kvp) ≡ head = ground (arith, last.last, e.last) in rw is read

  module _ (appends : AppendLaws) (laws : EntryLaws) (keys : KeyLaws) where
    key_text_injective : (k k' : Key) → key_to_string k ≡ key_to_string k' → k ≡ k'
    key_text_injective k k' same =
        let left = keys.parse_print k in
        let right = keys.parse_print k' in
        let both : ok k ≡ ok k' = sym left ∙ (rw same right) in ground (arith, both)

    -- The new head has the lock of one branch replaced, and the listing is that of the new head.
    pub record Relocked (branch : Key) (lock : List Script) (spec : PrepareEntrySpec)
        (account after : PlogAccount) : Type 0 where
      pub old : Entry
      pub old_read : head_entry account ≡ ok old
      pub entry : Entry
      pub kvp : Kvp
      pub ends : EndsWith after.log entry kvp
      pub replaces : Replaces keys old branch lock (locks entry)
      pub ops : List x.Op
      pub stands : Stands laws spec.ops ops
      pub has_ops : laws.entry_ops entry ≡ ops
      pub out : List PathDelegation
      pub listed : list_plog_delegations after.log ≡ ok out
      pub lists : Lists (entry, kvp) out

    pub Enacted-Relocked :
        (branch : Key) (lock : List Script) (spec : PrepareEntrySpec) (account after : PlogAccount)
        → ((head : Entry)
            → (l : List Script) × (lock_spec_to_scripts head spec.locks ≡ ok (some l))
              × Replaces keys head branch lock l)
        → Enacted laws spec account after
        → Relocked branch lock spec account after
    Enacted-Relocked branch lock spec account after replacing e =
        let (l, built, r) = replacing e.head in
        let chosen : e.next_locks ≡ some l = ground (arith, built, e.locks_built) in
        let is : locks e.entry ≡ l = e.has_locks ∙ (rw chosen (unfold choose_locks in refl)) in
        let read = EndsWith-verified_head after.log e.entry e.kvp e.verified e.head_now in
        let (out, listed, lists) = list_plog_delegations-Lists after.log (e.entry, e.kvp) read in
        record {
          old = e.head;
          old_read = e.head_read;
          entry = e.entry;
          kvp = e.kvp;
          ends = e.head_now;
          replaces = rw is r;
          ops = e.ops;
          stands = e.stands;
          has_ops = e.has_ops;
          out = out;
          listed = listed;
          lists = lists;
        }

    -- No delegation of a branch without a lock is listed.
    pub Relocked-gone :
        (branch : Key) (spec : PrepareEntrySpec) (account after : PlogAccount)
        (r : Relocked branch [] spec account after) (d : PathDelegation)
        → In d r.out
        → d.path ≢ key_to_string branch
    Relocked-gone branch spec account after r d i same =
        let (lock, at, g) = r.lists.sound d i in
        let is : script_path lock ≡ branch =
          key_text_injective (script_path lock) branch (sym g.path ∙ same) in
        let bound : (script_path lock == branch) ≡ true =
          (key_eq.decides (script_path lock) branch).1 is in
        let found : In lock (at_path branch (locks r.entry)) =
          In-filter (λ s. script_path s == branch) (locks r.entry) bound at in
        let empty : In lock [] = rw r.replaces.there_now at found in elim empty [ ]

    -- A listed delegation of a branch with one lock stands for that lock.
    pub Relocked-only :
        (branch : Key) (lock : Script) (spec : PrepareEntrySpec) (account after : PlogAccount)
        (r : Relocked branch (lock ∷ []) spec account after) (d : PathDelegation)
        → In d r.out
        → d.path ≡ key_to_string branch
        → Grants r.kvp lock d
    Relocked-only branch lock spec account after r d i same =
        let (granting, at, g) = r.lists.sound d i in
        let is : script_path granting ≡ branch =
          key_text_injective (script_path granting) branch (sym g.path ∙ same) in
        let bound : (script_path granting == branch) ≡ true =
          (key_eq.decides (script_path granting) branch).1 is in
        let found : In granting (at_path branch (locks r.entry)) =
          In-filter (λ s. script_path s == branch) (locks r.entry) bound at in
        let one : In granting (lock ∷ []) = rw r.replaces.there_now at found in
        let is_lock : granting ≡ lock = In-one one in rw is_lock at g
