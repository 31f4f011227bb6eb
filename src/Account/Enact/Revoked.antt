-- ===== src/Account/Enact/Revoked.antt =====
-- A revocation, from its preparation to the listing after its commit.
use logos_accounts.Prelude.{ℕ, String, ◌≡◌, ◌≢◌, List, [], ok, arith, In, >>=-eq-ok, string_eq}
use logos_accounts.Externals.{Externals, Entry, Key, key_instance}
use logos_accounts.Externals.Laws.{AppendLaws, IsVerified, KeyLaws}
use logos_accounts.Externals.EntryLaws.{EntryLaws}
use logos_accounts.Config.{parse_branch_path, delegate_pubkey_key}
use logos_accounts.Delegations.{PathDelegation}
use logos_accounts.Account.{
  Ambient, PrepareEntrySpec, PlogAccount, UpdateChallenge, head_entry, list_delegations,
}
use logos_accounts.Account.Preparing.{revoke_spec, prepare_revoke, signer_for}
use logos_accounts.Account.Committing.{commit_update}
use logos_accounts.Account.Invariant.{IsValid}
use logos_accounts.Account.Specs.{prepared, revoke_spec_of, prepare_revoke-prepared}
use logos_accounts.Account.Policy.{Replaces, revoke_spec-Replaces}
use logos_accounts.Account.Enact.Committed.{Enacted, prepare_entry-Enacted}
use logos_accounts.Account.Enact.Listed.{Enacted-Relocked, Relocked-gone}
use logos_accounts.Account.Enact.Prepared.{prepared-ok, EndsWith-head_entry, Done}

module _ ⦃x : Externals⦄ where
  open x use {key_to_string, locks, script_path, is_branch, as_str}

  -- The branch of `path` has no lock at the new head and no delegation in the listing; all other
  -- locks are as they were.
  pub record Revoked (keys : KeyLaws) (path : String) (account after : PlogAccount) : Type 0 where
    pub branch : Key
    pub parsed : parse_branch_path path ≡ ok branch
    pub old : Entry
    pub entry : Entry
    pub old_read : head_entry account ≡ ok old
    pub new_read : head_entry after ≡ ok entry
    pub replaces : Replaces keys old branch [] (locks entry)
    pub out : List PathDelegation
    pub listed : list_delegations after ≡ ok out
    pub gone : (d : PathDelegation) → In d out → d.path ≢ key_to_string branch

  module _ (appends : AppendLaws) (laws : EntryLaws) (keys : KeyLaws) where
    Enacted-Revoked :
        (path : String) (account after : PlogAccount) (spec : PrepareEntrySpec)
        → revoke_spec_of path account ≡ ok spec
        → Enacted laws spec account after
        → Revoked keys path account after
    Enacted-Revoked path account after spec made e =
        let (branch, parsed, rest) = >>=-eq-ok (parse_branch_path path) _ made in
        let (pk_key, keyed, rest') = >>=-eq-ok (delegate_pubkey_key branch) _ rest in
        let (sign_as, signer, last) = >>=-eq-ok (signer_for branch account) _ rest' in
        let is : revoke_spec branch pk_key sign_as ≡ spec = ground (arith, last) in
        let k =
          Enacted-Relocked appends laws keys branch [] (revoke_spec branch pk_key sign_as) account
            after (λ head. revoke_spec-Replaces keys head branch pk_key sign_as) (rw (← is) at e) in
        record {
          branch = branch;
          parsed = parsed;
          old = k.old;
          entry = k.entry;
          old_read = k.old_read;
          new_read = EndsWith-head_entry after k.entry k.kvp k.ends;
          replaces = k.replaces;
          out = k.out;
          listed = unfold list_delegations in k.listed;
          gone = Relocked-gone appends laws keys branch _ account after k;
        }

    prepared-Revoked :
        (env : Ambient) (path : String) (account : PlogAccount) (c : UpdateChallenge) (now : ℕ)
        (signature : String) (done : Done)
        → IsValid account
        → IsVerified account.log
        → (prepared env (revoke_spec_of path account) account).0 ≡ ok c
        → let r =
            commit_update now c.challenge_id signature
              (prepared env (revoke_spec_of path account) account).1 in
          r.0 ≡ ok done → Revoked keys path account r.1
    prepared-Revoked env path account c now signature done v verified h =
        let (spec, made) = prepared-ok env (revoke_spec_of path account) account c h in
        rw made λ committed. Enacted-Revoked path account _ spec made (
          prepare_entry-Enacted appends laws env spec account c now signature done v verified
            (rw made at h) committed)

    -- On a valid account with a verified log: if `prepare_revoke` of a path returns a challenge and
    -- a commit under its id succeeds, then the path is that of a branch, the new head has no lock
    -- on the branch and all other locks as before, and the listing of the account succeeds and has
    -- no delegation with the branch's path. This uses the laws of the append, of keys, and of the
    -- locks and operations of entries.
    pub prepare_revoke-Revoked :
        (env : Ambient) (path : String) (account : PlogAccount) (c : UpdateChallenge) (now : ℕ)
        (signature : String) (done : Done)
        → IsValid account
        → IsVerified account.log
        → (prepare_revoke env path account).0 ≡ ok c
        → let r = commit_update now c.challenge_id signature (prepare_revoke env path account).1 in
          r.0 ≡ ok done → Revoked keys path account r.1
    prepare_revoke-Revoked env path account c now signature done v verified =
        rw (prepare_revoke-prepared env path account)
          (prepared-Revoked env path account c now signature done v verified)
