-- ===== src/Account/Policy.antt =====
-- What `prepare_delegate` and `prepare_revoke` ask of the next entry.
use logos_accounts.Prelude.{String, ◌≡◌, refl, none, some, List, [], ◌∷◌, ok, arith}
use logos_accounts.Externals.{Externals, Key, Script, Entry, Multikey, OpParamsOf}
use logos_accounts.Externals.Laws.{KeyLaws}
use logos_accounts.Config.{delegated_branch_lock_script, delegated_lock_code}
use logos_accounts.Encoding.{decode_bytes_multibase}
use logos_accounts.EntryUpdate.{
  op_from_params, use_key_op, locks_replacing_path, prepare_next_entry,
}
use logos_accounts.EntryUpdate.Locks.{
  at_path, elsewhere, locks_replacing_path-some, locks_replacing_path-none,
}
use logos_accounts.Plog.{parse_key}
use logos_accounts.Request.{
  LockScriptJson, LockSpec, EntryUpdateRequest, PlogOp, payload, lock_spec_to_scripts,
  plog_ops_to_params,
}
use logos_accounts.Account.{PlogAccount, PrepareEntrySpec, assemble, next_spec, entry_update}
use logos_accounts.Account.Preparing.{lock_parts, delegate_spec, revoke_spec, entry_spec}

module _ ⦃x : Externals⦄ (laws : KeyLaws) where
  open x use {key_to_string, locks, multikey_to_bytes}

  parse_key_print : (k : Key) → parse_key (key_to_string k) ≡ ok k
  parse_key_print k = unfold parse_key in rw (laws.parse_print k) refl

  -- `l` holds one lock for the branch, and otherwise what the head has.
  pub record Replaces (head : Entry) (branch : Key) (lock : List Script) (l : List Script)
      : Type 0 where
    pub there_now : at_path branch l ≡ lock
    pub untouched : elsewhere branch l ≡ elsewhere branch (locks head)

  -- The specification that `prepare_delegate` hands on builds a lock list in which the delegated
  -- lock is the only one on the branch, and the head's locks on other paths stay in their order.
  -- This uses that a key's text parses back and that a code script is bound to its key.
  pub delegate_spec-Replaces :
      (head : Entry) (branch pk_key : Key) (mk : Multikey) (sign_as : String)
      {lock : LockScriptJson}
      → lock_parts (delegated_branch_lock_script branch) ≡ ok lock
      → (l : List Script) × (lock_spec_to_scripts head
            (delegate_spec branch pk_key mk lock sign_as).locks
          ≡ ok (some l))
        × Replaces head branch (delegated_branch_lock_script branch ∷ []) l
  delegate_spec-Replaces head branch pk_key mk sign_as {lock} parts =
      let script = delegated_branch_lock_script branch in
      let lock_is : lock
          ≡ record { path = key_to_string branch; source = delegated_lock_code branch } =
        unfold lock_parts delegated_branch_lock_script in ground (arith, parts) in
      let both = locks_replacing_path-some head branch script (
        unfold delegated_branch_lock_script in
        laws.path_of_code branch (delegated_lock_code branch)) in
      (
        locks_replacing_path head branch (some script),
        (rw lock_is (
            unfold delegate_spec lock_spec_to_scripts delegated_branch_lock_script in
            rw (parse_key_print branch) refl)),
        record { there_now = both.0; untouched = both.1 },
      )

  -- The specification that `prepare_revoke` hands on builds a lock list with no lock on the
  -- branch, and the head's locks on other paths stay in their order. This uses that a key's text
  -- parses back.
  pub revoke_spec-Replaces :
      (head : Entry) (branch pk_key : Key) (sign_as : String)
      → (l : List Script) × (lock_spec_to_scripts head (revoke_spec branch pk_key sign_as).locks
          ≡ ok (some l))
        × Replaces head branch [] l
  revoke_spec-Replaces head branch pk_key sign_as =
      let both = locks_replacing_path-none head branch in
      (
        locks_replacing_path head branch none,
        (unfold revoke_spec lock_spec_to_scripts in rw (parse_key_print branch) refl),
        record { there_now = both.0; untouched = both.1 },
      )

module _ ⦃x : Externals⦄ where
  open x use {multikey_to_bytes}

  -- The raw request that says what a delegation says.
  abbrev pub raw_delegation : LockScriptJson → String → String → String → EntryUpdateRequest
  raw_delegation lock pk_path pk_multibase sign_as = record {
    locks = LockSpec.upsert lock;
    ops = PlogOp.update pk_path (payload pk_multibase) ∷ [];
    sign_as = some sign_as;
  }

  -- For a key path, a signer path and a key text that all parse, the raw request with the lock
  -- upsert and the key's bytes as payload yields a specification with the same signer that
  -- assembles the same unsigned entry as a delegation, or fails alike.
  pub raw_delegation-delegate_spec :
      (account : PlogAccount) (branch pk_key sign_key : Key) (mk : Multikey) (lock : LockScriptJson)
      (pk_path pk_multibase sign_as : String)
      → parse_key pk_path ≡ ok pk_key
      → parse_key sign_as ≡ ok sign_key
      → decode_bytes_multibase pk_multibase ≡ ok (multikey_to_bytes mk)
      → (spec : PrepareEntrySpec) × (entry_spec (raw_delegation lock pk_path pk_multibase sign_as)
          ≡ ok spec)
        × (spec.sign_as ≡ sign_as)
        × (assemble spec account ≡ assemble (delegate_spec branch pk_key mk lock sign_as) account)
  raw_delegation-delegate_spec account branch pk_key sign_key mk lock pk_path pk_multibase sign_as
        path signer key =
      (
        record {
          locks = LockSpec.upsert lock;
          ops = OpParamsOf.use_bin pk_key (multikey_to_bytes mk) ∷ [];
          sign_as = sign_as;
          kind = entry_update;
          path = none;
        },
        (unfold entry_spec plog_ops_to_params in rw (signer, path, key) refl),
        refl,
        (unfold assemble next_spec delegate_spec use_key_op prepare_next_entry op_from_params in
            refl),
      )
