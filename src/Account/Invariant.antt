-- ===== src/Account/Invariant.antt =====
-- The invariant of an account: every pending challenge was prepared against the current head.
use logos_accounts.Prelude.{
  ℕ, String, ◌≡◌, refl, inl, inr, Option, none, some, ok, arith, ◌==◌, string_eq, Bool, Bool-cases,
}
use logos_accounts.Prelude.Dict.{
  keep_if, lookup, lookup-insert, lookup-remove, lookup-retain, insert-IsDistinct,
  remove-IsDistinct, retain-IsDistinct, IsDistinct, remove,
}
use logos_accounts.Externals.{Externals}
use logos_accounts.EntryUpdate.{NextEntrySpec, prepare_next_entry}
use logos_accounts.Account.{
  PendingUpdate, PlogAccount, purge_expired_challenges, insert_pending, current_head_cid, is_live,
}

module _ ⦃x : Externals⦄ where
  -- The challenge names the current head, and its entry was assembled on the current log.
  pub record IsFresh (account : PlogAccount) (p : PendingUpdate) : Type 0 where
    pub at_head : p.head_cid ≡ current_head_cid account
    pub spec : NextEntrySpec
    pub assembled : prepare_next_entry account.log spec ≡ ok p.unsigned

  pub record IsValid (account : PlogAccount) : Type 0 where
    pub distinct : IsDistinct account.pending
    pub fresh :
        (id : String) (p : PendingUpdate) → lookup id account.pending ≡ some p → IsFresh account p

  -- The purge keeps exactly the challenges younger than the limit.
  pub lookup-purge :
      (now : ℕ) (id : String) (account : PlogAccount)
      → IsDistinct account.pending
      → lookup id (purge_expired_challenges now account).pending
        ≡ keep_if (is_live now) (lookup id account.pending)
  unfolding purge_expired_challenges
  lookup-purge now id account h = lookup-retain (is_live now) id account.pending h

  pub keep_if-eq-some :
      (p : PendingUpdate → Bool) (o : Option PendingUpdate) {v : PendingUpdate}
      → keep_if p o ≡ some v
      → o ≡ some v
  keep_if-eq-some p none h = cc
  keep_if-eq-some p (some w) h = ground arith

  -- Fewer challenges on the same log.
  pub IsValid-fewer :
      {a b : PlogAccount}
      → IsValid a
      → b.log ≡ a.log
      → IsDistinct b.pending
      → ((id : String) (p : PendingUpdate)
          → lookup id b.pending ≡ some p
          → lookup id a.pending ≡ some p)
      → IsValid b
  unfolding current_head_cid
  IsValid-fewer {a} {b} v same d sub = record {
    distinct = d;
    fresh = λ id p h.
        let f : IsFresh a p = v.fresh id p (sub id p h) in
        record { at_head = rw same f.at_head; spec = f.spec; assembled = rw same f.assembled };
  }

  pub purge-IsValid :
      (now : ℕ) {account : PlogAccount}
      → IsValid account
      → IsValid (purge_expired_challenges now account)
  purge-IsValid now {account} v =
      IsValid-fewer v (unfold purge_expired_challenges in refl)
        (unfold purge_expired_challenges in
          retain-IsDistinct (is_live now) account.pending v.distinct)
        λ id p h. keep_if-eq-some (is_live now) _ (rw (lookup-purge now id account v.distinct) at h)

  remove-sub :
      (id : String) (account : PlogAccount) (j : String) (p : PendingUpdate)
      → lookup j (remove id account.pending) ≡ some p
      → lookup j account.pending ≡ some p
  remove-sub id account j p h = ground (arith, lookup-remove id j account.pending)

  pub remove-IsValid :
      (id : String) {account : PlogAccount}
      → IsValid account
      → IsValid (record account { pending = remove id account.pending })
  remove-IsValid id {account} v =
      IsValid-fewer v refl (remove-IsDistinct id account.pending v.distinct) (remove-sub id account)

  pub insert-IsValid :
      (id : String) (p : PendingUpdate) {account : PlogAccount}
      → IsValid account
      → IsFresh account p
      → IsValid (insert_pending id p account)
  unfolding insert_pending current_head_cid
  insert-IsValid id p {account} v f = record {
    distinct = insert-IsDistinct id p account.pending v.distinct;
    fresh = λ j q h. elim (Bool-cases (id == j)) [
      | inl same ↦
          let e : p ≡ q = ground (arith, lookup-insert id j p account.pending) in
          rw (← e) (record { at_head = f.at_head; spec = f.spec; assembled = f.assembled })
      | inr differ ↦
          let g : IsFresh account q =
            v.fresh j q (ground (arith, lookup-insert id j p account.pending)) in
          record { at_head = g.at_head; spec = g.spec; assembled = g.assembled }
    ];
  }
