-- ===== src/Account/Enact/Delegated.antt =====
-- A delegation, from its preparation to the listing after its commit.
use logos_accounts.Prelude.{
  filter-In, ℕ, String, ◌≡◌, refl, sym, subst, ◌∙◌, ◌≢◌, true, some, List, [], ◌∷◌, ok, arith, In,
  here, >>=-eq-ok, ◌==◌, string_eq,
}
use logos_accounts.Externals.{
  Externals, Entry, Key, Multikey, Script, OpId, data_value, key_instance,
}
use logos_accounts.Externals.Laws.{AppendLaws, IsVerified, KeyLaws}
use logos_accounts.Externals.EntryLaws.{EntryLaws, MultikeyLaws}
use logos_accounts.Config.{
  parse_branch_path, delegate_pubkey_key, delegated_branch_lock_script, delegated_lock_code,
}
use logos_accounts.Config.Branch.{parse_branch_path_iff}
use logos_accounts.Encoding.{encode_multikey, decode_multikey}
use logos_accounts.EntryUpdate.{use_key_op, op_from_params}
use logos_accounts.Request.{LockScriptJson}
use logos_accounts.Delegations.{PathDelegation, find_grant, grant_text}
use logos_accounts.Delegations.Contains.{is_delegated-delegated_branch_lock_script}
use logos_accounts.Delegations.Granting.{
  is_delegated-ChecksKey, find_grant-FirstGiven, FirstGiven-find_grant,
}
use logos_accounts.Delegations.Listed.{Grants, branch_of_key}
use logos_accounts.Account.{
  Ambient, PrepareEntrySpec, PlogAccount, UpdateChallenge, head_entry, list_delegations,
}
use logos_accounts.Account.Preparing.{delegate_spec, lock_parts, prepare_delegate, signer_for}
use logos_accounts.Account.Committing.{commit_update}
use logos_accounts.Account.Invariant.{IsValid}
use logos_accounts.Account.Specs.{prepared, delegate_spec_of, prepare_delegate-prepared}
use logos_accounts.Account.Policy.{Replaces, delegate_spec-Replaces}
use logos_accounts.Account.Enact.{Stands, none_left, one_more}
use logos_accounts.Account.Enact.Committed.{Enacted, prepare_entry-Enacted}
use logos_accounts.Account.Enact.Listed.{
  Relocked, Enacted-Relocked, Relocked-only, find_grant-lookup,
}
use logos_accounts.Account.Enact.Prepared.{prepared-ok, EndsWith-head_entry, Done}

module _ ⦃x : Externals⦄ where
  open x use {key_to_string, locks, script_path, is_branch, as_str}

  -- The branch of `path` has the delegated lock as its only one at the new head, all other locks
  -- are as they were, and the listing has one delegation of the branch, to the key.
  pub record Delegated (keys : KeyLaws) (path pubkey : String) (account after : PlogAccount)
      : Type 0 where
    pub branch : Key
    pub parsed : parse_branch_path path ≡ ok branch
    pub mk : Multikey
    pub decoded : decode_multikey pubkey ≡ ok mk
    pub old : Entry
    pub entry : Entry
    pub old_read : head_entry account ≡ ok old
    pub new_read : head_entry after ≡ ok entry
    pub replaces : Replaces keys old branch (delegated_branch_lock_script branch ∷ []) (locks entry)
    pub out : List PathDelegation
    pub listed : list_delegations after ≡ ok out
    pub there_now : In (record { path = key_to_string branch; pubkey = encode_multikey mk }) out
    pub only :
        (d : PathDelegation)
        → In d out
        → d.path ≡ key_to_string branch
        → d.pubkey ≡ encode_multikey mk

  one_update :
      (laws : EntryLaws) (pk_key : Key) (mk : Multikey) (ops : List x.Op)
      → Stands laws (use_key_op pk_key mk ∷ []) ops
      → (o : x.Op) × (ops ≡ o ∷ [])
        × (laws.content o ≡ record {
          id = OpId.update;
          key_path = pk_key;
          value = some (data_value (x.multikey_to_bytes mk));
        })
  unfolding use_key_op op_from_params
  one_update laws pk_key mk _ (one_more p o made none_left) =
      (o, refl, laws.content-op_try_build _ o made)

  grant_text_bytes :
      MultikeyLaws
      → (mk : Multikey)
      → grant_text (data_value (x.multikey_to_bytes mk)) ≡ some (encode_multikey mk)
  unfolding grant_text
  grant_text_bytes multikeys mk = rw (multikeys.bytes_back mk, grant_text) refl

  module _ (appends : AppendLaws) (laws : EntryLaws) (keys : KeyLaws)
      (multikeys : MultikeyLaws) where
    module _ (branch pk_key : Key) (mk : Multikey) (lock : LockScriptJson) (sign_as : String)
        (keyed : delegate_pubkey_key branch ≡ ok pk_key) (account after : PlogAccount)
        (k : Relocked appends laws keys branch
          (delegated_branch_lock_script branch ∷ [])
          (delegate_spec branch pk_key mk lock sign_as)
          account
          after) where
      abbrev script : Script
      script = delegated_branch_lock_script branch

      bound : script_path script ≡ branch
      unfolding delegated_branch_lock_script
      bound = keys.path_of_code branch (delegated_lock_code branch)

      stored : find_grant pk_key k.kvp ≡ some (encode_multikey mk)
      stored =
          let (o, alone, says) =
            one_update laws pk_key mk k.ops (unfold delegate_spec in k.stands) in
          let value = data_value (x.multikey_to_bytes mk) in
          let written =
            laws.updated after.log k.entry k.kvp [] o pk_key value k.ends (k.has_ops ∙ alone)
              says in
          find_grant-lookup pk_key k.kvp value (encode_multikey mk) written
            (grant_text_bytes multikeys mk)

      at_head : In script (locks k.entry)
      at_head =
          filter-In (λ s. script_path s == branch) (locks k.entry)
            (subst (λ l. In script l) (sym k.replaces.there_now) (here refl))

      grants :
          is_branch branch ≡ true
          → as_str branch ≢ "/"
          → Grants k.kvp script
              (record { path = key_to_string branch; pubkey = encode_multikey mk })
      grants b root = record {
        branch = rw bound b;
        not_root = rw bound root;
        checks = is_delegated-ChecksKey script (is_delegated-delegated_branch_lock_script branch);
        pk_key = pk_key;
        pk_path = rw bound (branch_of_key branch pk_key keyed);
        stored = find_grant-FirstGiven pk_key k.kvp (encode_multikey mk) stored;
        path = rw bound refl;
      }

      same_key : (d : PathDelegation) → Grants k.kvp script d → d.pubkey ≡ encode_multikey mk
      same_key d g =
          let named = branch_of_key branch pk_key keyed in
          let is : g.pk_key ≡ pk_key = ground (arith, g.pk_path, named, bound) in
          let first = FirstGiven-find_grant g.pk_key k.kvp d.pubkey g.stored in
          ground (arith, first, stored, is)

    Enacted-Delegated :
        (path pubkey : String) (account after : PlogAccount) (spec : PrepareEntrySpec)
        → delegate_spec_of path pubkey account ≡ ok spec
        → Enacted laws spec account after
        → Delegated keys path pubkey account after
    Enacted-Delegated path pubkey account after spec made e =
        let (branch, parsed, rest) = >>=-eq-ok (parse_branch_path path) _ made in
        let (mk, decoded, rest1) = >>=-eq-ok (decode_multikey pubkey) _ rest in
        let (pk_key, keyed, rest2) = >>=-eq-ok (delegate_pubkey_key branch) _ rest1 in
        let script = delegated_branch_lock_script branch in
        let (lock, parts, rest3) = >>=-eq-ok (lock_parts script) _ rest2 in
        let (sign_as, signer, last) = >>=-eq-ok (signer_for branch account) _ rest3 in
        let asked = delegate_spec branch pk_key mk lock sign_as in
        let is : asked ≡ spec = ground (arith, last) in
        let k =
          Enacted-Relocked appends laws keys branch (script ∷ []) asked account after
            (λ head. delegate_spec-Replaces keys head branch pk_key mk sign_as parts)
            (rw (← is) at e) in
        let (_, b, root) = (parse_branch_path_iff path branch).0 parsed in
        let g = grants branch pk_key mk lock sign_as keyed account after k b root in
        record {
          branch = branch;
          parsed = parsed;
          mk = mk;
          decoded = decoded;
          old = k.old;
          entry = k.entry;
          old_read = k.old_read;
          new_read = EndsWith-head_entry after k.entry k.kvp k.ends;
          replaces = k.replaces;
          out = k.out;
          listed = unfold list_delegations in k.listed;
          there_now =
              k.lists.complete _
                (script, at_head branch pk_key mk lock sign_as keyed account after k, g);
          only = λ d i same.
              same_key branch pk_key mk lock sign_as keyed account after k d
                (Relocked-only appends laws keys branch script asked account after k d i same);
        }

    prepared-Delegated :
        (env : Ambient) (path pubkey : String) (account : PlogAccount) (c : UpdateChallenge)
        (now : ℕ) (signature : String) (done : Done)
        → IsValid account
        → IsVerified account.log
        → (prepared env (delegate_spec_of path pubkey account) account).0 ≡ ok c
        → let r =
            commit_update now c.challenge_id signature
              (prepared env (delegate_spec_of path pubkey account) account).1 in
          r.0 ≡ ok done → Delegated keys path pubkey account r.1
    prepared-Delegated env path pubkey account c now signature done v verified h =
        let (spec, made) = prepared-ok env (delegate_spec_of path pubkey account) account c h in
        rw made λ committed. Enacted-Delegated path pubkey account _ spec made (
          prepare_entry-Enacted appends laws env spec account c now signature done v verified
            (rw made at h) committed)

    -- On a valid account with a verified log: if `prepare_delegate` of a path to a key returns a
    -- challenge and a commit under its id succeeds, then the path is that of a branch and the key
    -- text decodes, the new head has the delegated lock as its only one on the branch and all other
    -- locks as before, and the listing of the account succeeds and has exactly one key for the
    -- branch's path: the given one. This uses the laws of the append, of keys and key bytes, and of
    -- the locks and operations of entries.
    pub prepare_delegate-Delegated :
        (env : Ambient) (path pubkey : String) (account : PlogAccount) (c : UpdateChallenge)
        (now : ℕ) (signature : String) (done : Done)
        → IsValid account
        → IsVerified account.log
        → (prepare_delegate env path pubkey account).0 ≡ ok c
        → let r =
            commit_update now c.challenge_id signature
              (prepare_delegate env path pubkey account).1 in
          r.0 ≡ ok done → Delegated keys path pubkey account r.1
    prepare_delegate-Delegated env path pubkey account c now signature done v verified =
        rw (prepare_delegate-prepared env path pubkey account)
          (prepared-Delegated env path pubkey account c now signature done v verified)
