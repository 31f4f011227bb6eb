-- ===== src/Account/Enact.antt =====
-- The locks and operations of an entry, while it is built.
pub mod Committed
pub mod Listed
pub mod Prepared
pub mod Revoked
pub mod Undone
pub mod Delegated
use logos_accounts.Prelude.{
  append-nil, append_assoc, ℕ, ◌+◌, String, ◌≡◌, refl, ap, sym, ◌∙◌, Bool-cases, inl, inr, Option,
  none, some, List, [], ◌∷◌, ◌++◌, Result, ok, err, Result-cases, arith, string_eq, ==_refl,
  if◌then◌else◌, >>=-eq-ok,
}
use logos_accounts.Prelude.Dict.{lookup, lookup-insert}
use logos_accounts.Error.{Error}
use logos_accounts.Externals.{Externals, Entry, Log, Kvp, Key, Script, OpParams, Multisig, Bytes}
use logos_accounts.Externals.Laws.{AppendLaws, IsVerified}
use logos_accounts.Externals.EntryLaws.{EntryLaws, EndsWith}
use logos_accounts.EntryUpdate.{
  UnsignedUpdate, NextEntrySpec, choose_locks, next_draft, add_ops, link_lipmaa, op_from_params,
  prepare_next_entry, commit_with_multisig, append_built,
}
use logos_accounts.EntryUpdate.Assembly.{Built, prepare_next_entry-Built}

module _ ⦃x : Externals⦄ (laws : EntryLaws) where
  open x use {
    Op, MutableEntry, locks, entry_build, entry_seqno, is_lipmaa, lipmaa, log_seqno, entry_cid,
    with_lipmaa, try_append, try_build_with_proof, multisig_to_bytes, add_op,
  }

  -- The operations that the parameters stand for, in order.
  pub data Stands : List OpParams → List Op → Type 0 where
    none_left : Stands [] []
    one_more :
        {ps : List OpParams} {os : List Op} (p : OpParams) (o : Op)
        → op_from_params p ≡ ok o
        → Stands ps os
        → Stands (p ∷ ps) (o ∷ os)

  -- A builder with the same locks and more operations.
  pub record Extends (m m' : MutableEntry) (ops : List Op) : Type 0 where
    pub same_locks : laws.draft_locks m' ≡ laws.draft_locks m
    pub more_ops : laws.draft_ops m' ≡ laws.draft_ops m ++ ops

  add_ops-Extends :
      (m m' : MutableEntry) (ps : List OpParams)
      → add_ops m ps ≡ ok m'
      → (os : List Op) × Stands ps os × Extends m m' os
  unfolding add_ops
  add_ops-Extends m m' [] h =
      let is : m ≡ m' = ground (arith, h) in
      (
        [],
        none_left,
        rw (← is) (record { same_locks = refl; more_ops = sym (append-nil (laws.draft_ops m)) }),
      )
  add_ops-Extends m m' (p ∷ ps) h =
      let (o, made, rest) = >>=-eq-ok (op_from_params p) _ h in
      let (os, stands, e) = add_ops-Extends (add_op m o) m' ps rest in
      (
        o ∷ os,
        one_more p o made stands,
        record {
          same_locks = e.same_locks ∙ laws.locks-add_op m o;
          more_ops =
              rw (e.more_ops, laws.ops-add_op m o) (append_assoc (laws.draft_ops m) (o ∷ []) os);
        },
      )

  link_lipmaa-Extends :
      (log : Log) (n : ℕ) (m m' : MutableEntry)
      → link_lipmaa log n m ≡ ok m'
      → (laws.draft_locks m' ≡ laws.draft_locks m) × (laws.draft_ops m' ≡ laws.draft_ops m)
  unfolding link_lipmaa
  link_lipmaa-Extends log n m m' h = elim (Bool-cases (is_lipmaa n)) [
    | inl linked ↦
        let (hop, found, last) =
          >>=-eq-ok (log_seqno log (lipmaa n)) (λ hop. ok (with_lipmaa m (entry_cid hop)))
            (rw linked at h) in
        let is : with_lipmaa m (entry_cid hop) ≡ m' = ground (arith, last) in
        rw (← is) (laws.locks-with_lipmaa m (entry_cid hop), laws.ops-with_lipmaa m (entry_cid hop))
    | inr plain ↦ let is : m ≡ m' = ground (arith, h, plain) in rw (← is) (refl, refl)
  ]

  -- The entry that is built has the locks that were chosen, and the operations asked for.
  pub record HasContent (head : Entry) (spec : NextEntrySpec) (entry : Entry) : Type 0 where
    pub has_locks : locks entry ≡ choose_locks head spec.next_locks
    pub ops : List Op
    pub stands : Stands spec.ops ops
    pub has_ops : laws.entry_ops entry ≡ ops

  Built-HasContent :
      (log : Log) (spec : NextEntrySpec) (u : UnsignedUpdate) (b : Built log spec u)
      → HasContent b.last spec u.entry
  Built-HasContent log spec u b =
      let draft = next_draft b.last spec in
      let (os, stands, e) = add_ops-Extends (entry_build draft) b.with_ops spec.ops b.ops_added in
      let linked =
        link_lipmaa-Extends log (entry_seqno b.last + 1) b.with_ops b.linked b.hop_added in
      record {
        has_locks =
            laws.locks-unsigned b.linked u.entry b.unsigned
            ∙ linked.0
            ∙ e.same_locks
            ∙ laws.locks-build draft
            ∙ (unfold next_draft in refl);
        ops = os;
        stands = stands;
        has_ops =
            laws.ops-unsigned b.linked u.entry b.unsigned
            ∙ linked.1
            ∙ e.more_ops
            ∙ (rw (laws.ops-build draft) refl);
      }
