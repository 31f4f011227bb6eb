-- ===== src/EntryUpdate/Assembly.antt =====
-- The entry that `prepare_next_entry` assembles.
use logos_accounts.Prelude.{◌+◌, ◌≡◌, ok, arith, Result-cases, inl, inr}
use logos_accounts.Externals.{Externals, Entry, Log}
use logos_accounts.EntryUpdate.{
  UnsignedUpdate, NextEntrySpec, last_entry, add_ops, link_lipmaa, next_draft, prepare_next_entry,
}

module _ ⦃x : Externals⦄ where
  open x use {
    MutableEntry, locks, entry_seqno, entry_build, prepare_unsigned_entry, entry_to_bytes,
    multikey_to_bytes,
  }

  -- The steps of an assembly that succeeded.
  pub record Built (log : Log) (spec : NextEntrySpec) (u : UnsignedUpdate) : Type 0 where
    pub last : Entry
    pub with_ops : MutableEntry
    pub linked : MutableEntry
    pub last_read : last_entry log ≡ ok last
    pub ops_added : add_ops (entry_build (next_draft last spec)) spec.ops ≡ ok with_ops
    pub hop_added : link_lipmaa log (entry_seqno last + 1) with_ops ≡ ok linked
    pub unsigned : prepare_unsigned_entry linked ≡ ok u.entry
    pub signed_bytes : u.signing_bytes ≡ entry_to_bytes u.entry

  -- An unsigned entry that `prepare_next_entry` returns was built on the last entry of the log,
  -- with the specification's operations added in order and the long hop where its sequence number
  -- has one; the signing bytes are the bytes of that entry.
  pub prepare_next_entry-Built :
      (log : Log) (spec : NextEntrySpec) (u : UnsignedUpdate)
      → prepare_next_entry log spec ≡ ok u
      → Built log spec u
  prepare_next_entry-Built log spec u h = elim (Result-cases (last_entry log)) [
    | inr (e, no_last) ↦ absurd (unfold prepare_next_entry in ground (arith, no_last))
    | inl (last, e1) ↦ elim (Result-cases (add_ops (entry_build (next_draft last spec)) spec.ops)) [
      | inr (e, no_ops) ↦ absurd (unfold prepare_next_entry in ground (arith, e1, no_ops))
      | inl (m, e2) ↦ elim (Result-cases (link_lipmaa log (entry_seqno last + 1) m)) [
        | inr (e, no_hop) ↦ absurd (unfold prepare_next_entry in ground (arith, e1, e2, no_hop))
        | inl (m', e3) ↦ elim (Result-cases (prepare_unsigned_entry m')) [
          | inr (e, no_entry) ↦
              absurd (unfold prepare_next_entry in ground (arith, e1, e2, e3, no_entry))
          | inl (entry, e4) ↦ record {
            last = last;
            with_ops = m;
            linked = m';
            last_read = e1;
            ops_added = e2;
            hop_added = e3;
            unsigned = unfold prepare_next_entry in ground (arith, e1, e2, e3, e4);
            signed_bytes = unfold prepare_next_entry in ground (arith, e1, e2, e3, e4);
          }
        ]
      ]
    ]
  ]
