-- ===== src/Account/Prepare.antt =====
-- What `prepare_entry` leaves behind.
use logos_accounts.Prelude.{◌≡◌, inl, inr, Result, ok, err, arith, string_eq, Result-cases}
use logos_accounts.Error.{Error}
use logos_accounts.Externals.{Externals}
use logos_accounts.EntryUpdate.{UnsignedUpdate}
use logos_accounts.Account.{
  Ambient, PrepareEntrySpec, PlogAccount, UpdateChallenge, new_challenge_id,
  purge_expired_challenges, assemble, insert_pending, pending_of, challenge_of, prepare_entry,
}

module _ ⦃x : Externals⦄ where
  -- The outcome of `prepare_entry`, from that of the assembly after the purge.
  abbrev pub outcome :
      Ambient
      → PrepareEntrySpec
      → PlogAccount
      → Result UnsignedUpdate Error
      → Result UpdateChallenge Error × PlogAccount
  outcome env spec a (ok u) = (
    ok (challenge_of env spec u a),
    insert_pending (new_challenge_id env.random) (pending_of env spec u a) a,
  )
  outcome env spec a (err e) = (err e, a)

  pub prepare_entry-outcome :
      (env : Ambient) (spec : PrepareEntrySpec) (account : PlogAccount)
      → let a = purge_expired_challenges env.now account in
        prepare_entry env spec account ≡ outcome env spec a (assemble spec a)
  prepare_entry-outcome env spec account =
      let a = purge_expired_challenges env.now account in
      elim (Result-cases (assemble spec a)) [
        | inl (u, e) ↦ unfold prepare_entry in ground (arith, e)
        | inr (u, e) ↦ unfold prepare_entry in ground (arith, e)
      ]
