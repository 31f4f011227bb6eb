-- ===== src/EntryUpdate.antt =====
-- rust-lib/src/entry_update.rs: the next unsigned entry of a log, and its append with a proof.
pub mod Locks
pub mod Assembly
use logos_accounts.Prelude.{
  ℕ, ◌+◌, Bool, not, Option, none, some, List, [], ◌∷◌, ◌++◌, Result, ok, err, map_err, ◌>>=◌,
  ok_or, ◌==◌, filter, get_last?, if◌then◌else◌,
}
use logos_accounts.Error.{Error, plog, plog_verify_failed, invalid_op}
use logos_accounts.Externals.{
  Externals, Key, Script, Entry, Log, Kvp, Multikey, Multisig, OpParams, Bytes, EntryDraft,
  OpBuilder, OpId, OpParamsOf, str, data_value, key_instance, Cid,
}
use logos_accounts.Config.{default_unlock_script}

module _ ⦃x : Externals⦄ where
  open x use {
    MutableEntry, Op, script_path, log_head, verify, log_seqno, try_append, locks, entry_vlad,
    entry_cid, entry_seqno, entry_version, entry_build, add_op, with_lipmaa, prepare_unsigned_entry,
    entry_to_bytes, try_build_with_proof, is_lipmaa, lipmaa, op_try_build, cid_to_bytes,
    multikey_to_bytes, multisig_to_bytes,
  }

  pub record UnsignedUpdate : Type 0 where
    pub entry : Entry
    pub signing_bytes : Bytes

  pub record NextEntrySpec : Type 0 where
    pub unlock : Script
    pub next_locks : Option (List Script)
    pub ops : List OpParams

  unfoldable pub default_spec : NextEntrySpec
  default_spec = record { unlock = default_unlock_script; next_locks = none; ops = [] }

  -- `log.verify().last().ok_or_else(…)??`: only the last item is looked at.
  unfoldable pub last_entry : Log → Result Entry Error
  last_entry log =
      ok_or (plog_verify_failed "empty provenance log") (get_last? (verify log)) >>= λ item.
      map_err plog item >>= λ verified. ok verified.1

  unfoldable pub op_from_params : OpParams → Result Op Error
  op_from_params (OpParamsOf.noop key) =
      op_try_build (record { id = OpId.noop; key_path = key; value = none })
  op_from_params (OpParamsOf.delete key) =
      op_try_build (record { id = OpId.delete; key_path = key; value = none })
  op_from_params (OpParamsOf.use_cid key cid) =
      op_try_build
        (record { id = OpId.update; key_path = key; value = some (data_value (cid_to_bytes cid)) })
  op_from_params (OpParamsOf.use_key key mk) = op_try_build (record {
    id = OpId.update;
    key_path = key;
    value = some (data_value (multikey_to_bytes mk));
  })
  op_from_params (OpParamsOf.use_str key s) =
      op_try_build (record { id = OpId.update; key_path = key; value = some (str s) })
  op_from_params (OpParamsOf.use_bin key bytes) =
      op_try_build (record { id = OpId.update; key_path = key; value = some (data_value bytes) })
  op_from_params (OpParamsOf.key_gen g) =
      err (invalid_op "KeyGen/CidGen must be resolved by BetterSign before entry assembly")
  op_from_params (OpParamsOf.cid_gen g) =
      err (invalid_op "KeyGen/CidGen must be resolved by BetterSign before entry assembly")

  -- The loop over `spec.ops`.
  unfoldable pub add_ops : MutableEntry → List OpParams → Result MutableEntry Error
  add_ops m [] = ok m
  add_ops m (params ∷ rest) = op_from_params params >>= λ op. add_ops (add_op m op) rest

  -- The long hop back, at the sequence numbers that have one.
  unfoldable pub link_lipmaa : Log → ℕ → MutableEntry → Result MutableEntry Error
  link_lipmaa log curr_seqno m =
      if is_lipmaa curr_seqno
      then (log_seqno log (lipmaa curr_seqno) >>= λ hop. ok (with_lipmaa m (entry_cid hop)))
      else ok m

  -- The lock set of the next entry: the given one, or the head's.
  unfoldable pub choose_locks : Entry → Option (List Script) → List Script
  choose_locks last (some l) = l
  choose_locks last none = locks last

  -- What the builder is given for the entry after `last`.
  unfoldable pub next_draft : Entry → NextEntrySpec → EntryDraft x.Vlad x.Cid Script
  unfolding choose_locks
  next_draft last spec = record {
    version = entry_version;
    vlad = entry_vlad last;
    prev = entry_cid last;
    seqno = entry_seqno last + 1;
    locks = choose_locks last spec.next_locks;
    unlock = spec.unlock;
  }

  unfoldable pub prepare_next_entry : Log → NextEntrySpec → Result UnsignedUpdate Error
  unfolding last_entry add_ops link_lipmaa next_draft
  prepare_next_entry log spec = last_entry log >>= λ last.
      add_ops (entry_build (next_draft last spec)) spec.ops >>= λ m.
      link_lipmaa log (entry_seqno last + 1) m >>= λ m'. prepare_unsigned_entry m' >>= λ unsigned.
      ok (record { entry = unsigned; signing_bytes = entry_to_bytes unsigned })

  -- The log comes back beside the result, as `try_append` leaves it.
  unfoldable pub append_built : Log → Entry → Result Entry Error × Log
  append_built log entry =
      let appended = try_append log entry in ((appended.0 >>= λ _. ok entry), appended.1)

  unfoldable pub commit_with_multisig : Log → Entry → Multisig → Result Entry Error × Log
  unfolding append_built
  commit_with_multisig log unsigned signature =
      elim (try_build_with_proof unsigned (multisig_to_bytes signature)) [
        | ok entry ↦ append_built log entry
        | err e ↦ (err e, log)
      ]

  unfoldable pub push_some : List Script → Option Script → List Script
  push_some out none = out
  push_some out (some script) = out ++ script ∷ []

  unfoldable pub locks_replacing_path : Entry → Key → Option Script → List Script
  unfolding push_some
  locks_replacing_path head drop_path add =
      push_some (filter (λ s. not (script_path s == drop_path)) (locks head)) add

  unfoldable pub use_key_op : Key → Multikey → OpParams
  use_key_op key mk = OpParamsOf.use_key key mk

  unfoldable pub head_cid : Log → Cid
  head_cid log = log_head log
