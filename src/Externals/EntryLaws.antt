-- ===== src/Externals/EntryLaws.antt =====
-- What the documentation of provenance-log promises of entries: which locks and operations an entry
-- keeps while it is built, and what the last entry of a log and its store are after an append.
use logos_accounts.Prelude.{ℕ, ◌≡◌, some, List, [], ◌∷◌, ◌++◌, ok, get_last?, bytes_eq}
use logos_accounts.Prelude.Dict.{lookup}
use logos_accounts.Externals.{
  Externals, Entry, Log, Kvp, Key, Script, Value, Multikey, EntryDraft, OpBuilder, OpId, Bytes,
  key_instance,
}
use logos_accounts.Externals.Laws.{IsVerified}

module _ ⦃x : Externals⦄ where
  open x use {
    MutableEntry, Op, Vlad, Cid, entry_build, add_op, with_lipmaa, prepare_unsigned_entry,
    try_build_with_proof, op_try_build, locks, verify, try_append, multikey_to_bytes,
    multikey_try_from,
  }

  -- The log ends with the entry, which verifies, and with the store after it.
  pub record EndsWith (log : Log) (entry : Entry) (kvp : Kvp) : Type 0 where
    pub count : ℕ
    pub last : get_last? (verify log) ≡ some (ok (count, entry, kvp))

  pub record EntryLaws : Type 0 where
    -- What a builder and an entry have: their locks, their operations, and what an operation says.
    pub draft_locks : MutableEntry → List Script
    pub draft_ops : MutableEntry → List Op
    pub entry_ops : Entry → List Op
    pub content : Op → OpBuilder Key
    -- `build` takes the locks that it is given, and no operation.
    pub locks-build : (d : EntryDraft Vlad Cid Script) → draft_locks (entry_build d) ≡ d.locks
    pub ops-build : (d : EntryDraft Vlad Cid Script) → draft_ops (entry_build d) ≡ []
    -- `add_op` adds one operation, and `with_lipmaa` only a link.
    pub locks-add_op : (m : MutableEntry) (o : Op) → draft_locks (add_op m o) ≡ draft_locks m
    pub ops-add_op : (m : MutableEntry) (o : Op) → draft_ops (add_op m o) ≡ draft_ops m ++ o ∷ []
    pub locks-with_lipmaa :
        (m : MutableEntry) (c : Cid) → draft_locks (with_lipmaa m c) ≡ draft_locks m
    pub ops-with_lipmaa : (m : MutableEntry) (c : Cid) → draft_ops (with_lipmaa m c) ≡ draft_ops m
    pub content-op_try_build : (b : OpBuilder Key) (o : Op) → op_try_build b ≡ ok o → content o ≡ b
    -- An unsigned entry is what was built, and a proof changes neither locks nor operations.
    pub locks-unsigned :
        (m : MutableEntry) (e : Entry) → prepare_unsigned_entry m ≡ ok e → locks e ≡ draft_locks m
    pub ops-unsigned :
        (m : MutableEntry) (e : Entry) → prepare_unsigned_entry m ≡ ok e → entry_ops e ≡ draft_ops m
    pub locks-proof :
        (e e' : Entry) (proof : Bytes) → try_build_with_proof e proof ≡ ok e' → locks e' ≡ locks e
    pub ops-proof :
        (e e' : Entry) (proof : Bytes)
        → try_build_with_proof e proof ≡ ok e'
        → entry_ops e' ≡ entry_ops e
    -- An entry that a verified log accepts is its last one.
    pub appended_last :
        (log log' : Log) (e : Entry)
        → IsVerified log
        → try_append log e ≡ (ok tt, log')
        → (kvp : Kvp) × EndsWith log' e kvp
    -- The store after an entry has what its last update wrote.
    pub updated :
        (log : Log) (e : Entry) (kvp : Kvp) (ops : List Op) (o : Op) (k : Key) (v : Value)
        → EndsWith log e kvp
        → entry_ops e ≡ ops ++ o ∷ []
        → content o ≡ record { id = OpId.update; key_path = k; value = some v }
        → lookup k kvp ≡ some v

  -- A key reads back from its bytes.
  pub record MultikeyLaws : Type 0 where
    pub bytes_back : (mk : Multikey) → multikey_try_from (multikey_to_bytes mk) ≡ ok mk
