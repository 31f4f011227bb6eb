-- ===== src/Account/Enact/Undone.antt =====
-- A delegation and then its revocation.
use logos_accounts.Prelude.{
  ℕ, String, ◌≡◌, refl, sym, ap, ◌∙◌, Bool, Bool-cases, not, inl, inr, List, [], ◌∷◌, ok, arith,
  filter, ◌==◌,
}
use logos_accounts.Externals.{Externals, Entry, Key, Script, key_instance}
use logos_accounts.Externals.Laws.{AppendLaws, IsVerified, KeyLaws}
use logos_accounts.Externals.EntryLaws.{EntryLaws, MultikeyLaws}
use logos_accounts.EntryUpdate.Locks.{at_path, elsewhere}
use logos_accounts.Config.{parse_branch_path}
use logos_accounts.Account.{Ambient, PlogAccount, UpdateChallenge, head_entry}
use logos_accounts.Account.Preparing.{prepare_delegate, prepare_revoke}
use logos_accounts.Account.Committing.{commit_update}
use logos_accounts.Account.Invariant.{IsValid}
use logos_accounts.Account.Specs.{delegate_spec_of, prepare_delegate-prepared}
use logos_accounts.Account.Methods.{prepared-IsValid}
use logos_accounts.Account.Challenge.{commit_update-IsValid}
use logos_accounts.Account.Trust.{commit_update-IsVerified, prepared-log}
use logos_accounts.Account.Enact.Prepared.{Done}
use logos_accounts.Account.Enact.Delegated.{Delegated, prepare_delegate-Delegated}
use logos_accounts.Account.Enact.Revoked.{Revoked, prepare_revoke-Revoked}

module _ {ℓ} {A : Type ℓ} (p : A → Bool) where
  -- What a test takes nothing from, its negation takes all from.
  filter-not : (xs : List A) → filter p xs ≡ [] → filter (λ x. not (p x)) xs ≡ xs
  filter-not [] h = refl
  filter-not (x ∷ xs) h = elim (Bool-cases (p x)) [
    | inl there ↦ absurd (ground (arith, h, there))
    | inr out ↦ rw out (ap (λ l. x ∷ l) (filter-not xs (rw out at h)))
  ]

module _ ⦃x : Externals⦄ where
  open x use {locks}

  -- The head of `after` has the locks that the head of `account` has.
  pub record Undone (account after : PlogAccount) : Type 0 where
    pub old : Entry
    pub new : Entry
    pub old_read : head_entry account ≡ ok old
    pub new_read : head_entry after ≡ ok new
    pub restored : locks new ≡ locks old

  elsewhere_all : (branch : Key) (l : List Script) → at_path branch l ≡ [] → elsewhere branch l ≡ l
  elsewhere_all branch l h = filter-not (λ s. x.script_path s == branch) l h

  module _ (appends : AppendLaws) (laws : EntryLaws) (keys : KeyLaws)
      (multikeys : MultikeyLaws) where
    Revoked-Undone :
        (path pubkey : String) {branch : Key} {old : Entry} (account mid after : PlogAccount)
        → parse_branch_path path ≡ ok branch
        → head_entry account ≡ ok old
        → at_path branch (locks old) ≡ []
        → Delegated keys path pubkey account mid
        → Revoked keys path mid after
        → Undone account after
    Revoked-Undone path pubkey {branch} {old} account mid after parsed read free d r =
        let same_branch : d.branch ≡ r.branch = ground (arith, d.parsed, r.parsed) in
        let is_branch : d.branch ≡ branch = ground (arith, d.parsed, parsed) in
        let middle : d.entry ≡ r.old = ground (arith, d.new_read, r.old_read) in
        let first : d.old ≡ old = ground (arith, d.old_read, read) in
        record {
          old = old;
          new = r.entry;
          old_read = read;
          new_read = r.new_read;
          restored =
              sym (elsewhere_all r.branch (locks r.entry) r.replaces.there_now)
              ∙ r.replaces.untouched
              ∙ (λ i. elsewhere (sym same_branch i) (locks (sym middle i)))
              ∙ d.replaces.untouched
              ∙ (λ i. elsewhere (is_branch i) (locks (first i)))
              ∙ elsewhere_all branch (locks old) free;
        }

    -- On a valid account with a verified log whose head has no lock on the branch of a path: if
    -- `prepare_delegate` of the path to a key and then `prepare_revoke` of the path return
    -- challenges, and each is committed under its id, then the head has the locks that it had at
    -- first, in their order. This uses the laws of the append, of keys and key bytes, and of the
    -- locks and operations of entries.
    pub prepare_revoke-prepare_delegate :
        (path pubkey : String) (env later : Ambient) (now finally : ℕ) (signature again : String)
        {branch : Key} {old : Entry} (account mid after : PlogAccount) (c d : UpdateChallenge)
        (done gone : Done)
        → IsValid account
        → IsVerified account.log
        → parse_branch_path path ≡ ok branch
        → head_entry account ≡ ok old
        → at_path branch (locks old) ≡ []
        → (prepare_delegate env path pubkey account).0 ≡ ok c
        → commit_update now c.challenge_id signature (prepare_delegate env path pubkey account).1
          ≡ (ok done, mid)
        → (prepare_revoke later path mid).0 ≡ ok d
        → commit_update finally d.challenge_id again (prepare_revoke later path mid).1
          ≡ (ok gone, after)
        → Undone account after
    prepare_revoke-prepare_delegate path pubkey env later now finally signature again account mid
          after c d done gone v verified parsed read free asked committed revoked ended =
        let waits = (prepare_delegate env path pubkey account).1 in
        let is = prepare_delegate-prepared env path pubkey account in
        let spec = delegate_spec_of path pubkey account in
        let waits_valid : IsValid waits = rw is (prepared-IsValid env spec v) in
        let waits_verified : IsVerified waits.log =
          rw (is, prepared-log env spec account) verified in
        let mid_is : (commit_update now c.challenge_id signature waits).1 ≡ mid =
          ap (λ r. r.1) committed in
        let mid_valid : IsValid mid =
          rw mid_is at (commit_update-IsValid appends now c.challenge_id signature waits_valid) in
        let mid_verified : IsVerified mid.log =
          rw mid_is at
            (commit_update-IsVerified appends now c.challenge_id signature waits
              waits_verified).0 in
        Revoked-Undone path pubkey account mid after parsed read free
          (rw mid_is at (
            prepare_delegate-Delegated appends laws keys multikeys env path pubkey account c now
              signature done v verified asked (ap (λ r. r.0) committed)))
          (rw (ap (λ r. r.1) ended) at (
            prepare_revoke-Revoked appends laws keys later path mid d finally again gone mid_valid
              mid_verified revoked (ap (λ r. r.0) ended)))
