-- ===== src/Account/Enact/Committed.antt =====
-- From a prepared entry to the head of the log after its commit.
use logos_accounts.Prelude.{
  ℕ, String, ◌≡◌, refl, ap, sym, subst, ◌∙◌, inl, inr, Option, some, List, ok, Result-cases, arith,
  string_eq, ==_refl,
}
use logos_accounts.Prelude.Dict.{lookup, lookup-insert}
use logos_accounts.Externals.{Externals, Entry, Log, Kvp, Script, Multisig, Bytes}
use logos_accounts.Externals.Laws.{AppendLaws, IsVerified}
use logos_accounts.Externals.EntryLaws.{EntryLaws, EndsWith}
use logos_accounts.EntryUpdate.{UnsignedUpdate, choose_locks, commit_with_multisig, append_built}
use logos_accounts.EntryUpdate.Assembly.{prepare_next_entry-Built}
use logos_accounts.Plog.{AccountSummary}
use logos_accounts.Request.{lock_spec_to_scripts}
use logos_accounts.Account.{
  Ambient, PrepareEntrySpec, PendingUpdate, PlogAccount, UpdateChallenge, UpdateKind,
  purge_expired_challenges, assemble, prepare_entry, insert_pending, pending_of, challenge_of,
  new_challenge_id, head_entry, next_spec, is_live,
}
use logos_accounts.Account.Committing.{commit_update, append_signed}
use logos_accounts.Account.Prepare.{outcome, prepare_entry-outcome}
use logos_accounts.Account.Invariant.{IsValid, lookup-purge, keep_if-eq-some}
use logos_accounts.Account.Methods.{assemble-Assembled, prepare_entry-IsValid}
use logos_accounts.Account.Commit.{
  CommitCase, Committed, head_moved, bad_signature, refused, unreadable, appended,
  commit_pending-CommitCase,
}
use logos_accounts.Account.Challenge.{forget, commit_update_cases}
use logos_accounts.Account.Enact.{Built-HasContent, Stands}

module _ ⦃x : Externals⦄ where
  open x use {try_append, try_build_with_proof, multisig_to_bytes}

  -- The log accepted the unsigned entry, completed with a proof.
  pub record Accepts (log : Log) (unsigned entry : Entry) (log' : Log) : Type 0 where
    pub proof : Bytes
    pub completed : try_build_with_proof unsigned proof ≡ ok entry
    pub accepted : try_append log entry ≡ (ok tt, log')

  append_built-Accepts :
      (log : Log) (entry entry' : Entry)
      → (append_built log entry).0 ≡ ok entry'
      → (entry ≡ entry') × (try_append log entry ≡ (ok tt, (append_built log entry).1))
  unfolding append_built
  append_built-Accepts log entry entry' h = elim (Result-cases (try_append log entry).0) [
    | inl (tt, e) ↦ ((ground (arith, h, e)), ap (λ r. (r, (try_append log entry).1)) e)
    | inr (e, no_append) ↦ absurd (ground (arith, h, no_append))
  ]

  pub commit_with_multisig-Accepts :
      (log : Log) (unsigned entry : Entry) (sig : Multisig)
      → (commit_with_multisig log unsigned sig).0 ≡ ok entry
      → Accepts log unsigned entry (commit_with_multisig log unsigned sig).1
  unfolding commit_with_multisig
  commit_with_multisig-Accepts log unsigned entry sig h =
      elim (Result-cases (try_build_with_proof unsigned (multisig_to_bytes sig))) [
        | inr (e, failed) ↦ absurd (ground (arith, h, failed))
        | inl (built, e) ↦
            let done : (append_built log built).0 ≡ ok entry = rw (e, commit_with_multisig) at h in
            let (is, taken) = append_built-Accepts log built entry done in
            rw (e, commit_with_multisig)
              (record {
                proof = multisig_to_bytes sig;
                completed = e ∙ ap ok is;
                accepted =
                    subst (λ t. try_append log t ≡ (ok tt, (append_built log built).1)) is taken;
              })
      ]

  -- A commit that succeeds.
  CommitCase-Accepts :
      (signature : String) (p : PendingUpdate) {account : PlogAccount} {r : Committed × PlogAccount}
      (done : AccountSummary × UpdateKind × Option String)
      → CommitCase signature p account r
      → r.0 ≡ ok done
      → (entry : Entry) × Accepts account.log p.unsigned.entry entry r.1.log
  CommitCase-Accepts signature p done (head_moved e moved) h = absurd (cc)
  CommitCase-Accepts signature p done (bad_signature e same bad) h = absurd (cc)
  CommitCase-Accepts signature p done (refused sig e same good no_append) h = absurd (cc)
  CommitCase-Accepts signature p done (unreadable sig entry e same good made bad) h = absurd (cc)
  CommitCase-Accepts signature p {account} done (appended sig entry s same good made read) h = (
    entry,
    unfold append_signed in
        commit_with_multisig-Accepts account.log p.unsigned.entry entry sig
          (unfold append_signed in made),
  )

  -- The challenge that a `prepare_*` method returned, under its id.
  prepared_challenge :
      (env : Ambient) (spec : PrepareEntrySpec) (account : PlogAccount) (c : UpdateChallenge)
      → (prepare_entry env spec account).0 ≡ ok c
      → let a = purge_expired_challenges env.now account in
        (u : UnsignedUpdate) × (assemble spec a ≡ ok u)
        × (c.challenge_id ≡ new_challenge_id env.random)
        × ((prepare_entry env spec account).1
            ≡ insert_pending (new_challenge_id env.random) (pending_of env spec u a) a)
  prepared_challenge env spec account c h =
      let a = purge_expired_challenges env.now account in
      let whole = prepare_entry-outcome env spec account in
      elim (Result-cases (assemble spec a)) [
        | inr (e, failed) ↦ absurd (ground (arith, h, rw failed at whole))
        | inl (u, made) ↦
            let out : prepare_entry env spec account ≡ outcome env spec a (ok u) =
              rw made at whole in
            let is : challenge_of env spec u a ≡ c =
              let same : ok (challenge_of env spec u a) ≡ ok c = ap (λ r. r.0) (sym out) ∙ h in
              ground (arith, same) in
            (u, made, (rw (← is) (unfold challenge_of in refl)), ap (λ r. r.1) out)
      ]

  -- The challenge that a commit under the new id takes is the new one.
  taken_challenge :
      (now : ℕ) (id : String) (p q : PendingUpdate) (a : PlogAccount)
      → IsValid (insert_pending id p a)
      → lookup id (purge_expired_challenges now (insert_pending id p a)).pending ≡ some q
      → p ≡ q
  taken_challenge now id p q a v found =
      let kept =
        keep_if-eq-some (is_live now) (lookup id (insert_pending id p a).pending)
          (sym (lookup-purge now id (insert_pending id p a) v.distinct) ∙ found) in
      let there : lookup id (insert_pending id p a).pending ≡ some p =
        unfold insert_pending in lookup-insert id id p a.pending ∙ (rw (==_refl id) refl) in
      ground (arith, kept, there)

  -- The specification is enacted: it was read against the head before, and the new head has the
  -- locks and the operations that it asked for.
  pub record Enacted (laws : EntryLaws) (spec : PrepareEntrySpec) (account after : PlogAccount)
      : Type 0 where
    pub head : Entry
    pub next_locks : Option (List Script)
    pub head_read : head_entry account ≡ ok head
    pub locks_built : lock_spec_to_scripts head spec.locks ≡ ok next_locks
    pub entry : Entry
    pub kvp : Kvp
    pub verified : IsVerified after.log
    pub head_now : EndsWith after.log entry kvp
    pub has_locks : x.locks entry ≡ choose_locks head next_locks
    pub ops : List x.Op
    pub stands : Stands laws spec.ops ops
    pub has_ops : laws.entry_ops entry ≡ ops

  -- The unsigned entry, accepted with a proof.
  Accepts-Enacted :
      (appends : AppendLaws) (laws : EntryLaws) (spec : PrepareEntrySpec)
      (account after : PlogAccount) (u : UnsignedUpdate) (entry : Entry)
      → IsVerified account.log
      → assemble spec account ≡ ok u
      → Accepts account.log u.entry entry after.log
      → Enacted laws spec account after
  Accepts-Enacted appends laws spec account after u entry v made t =
      let m = assemble-Assembled spec account u made in
      let next = next_spec spec m.next_locks in
      let b = prepare_next_entry-Built account.log next u m.entry_built in
      let content = Built-HasContent laws account.log next u b in
      let same_head : b.last ≡ m.head =
        unfold head_entry in ground (arith, m.head_read, b.last_read) in
      let (kvp, now) = laws.appended_last account.log after.log entry v t.accepted in
      record {
        head = m.head;
        next_locks = m.next_locks;
        head_read = m.head_read;
        locks_built = m.locks_built;
        entry = entry;
        kvp = kvp;
        verified = appends.accepted_verifies account.log after.log entry t.accepted v;
        head_now = now;
        has_locks =
            laws.locks-proof u.entry entry t.proof t.completed
            ∙ content.has_locks
            ∙ (unfold next_spec in ap (λ e. choose_locks e m.next_locks) same_head);
        ops = content.ops;
        stands = unfold next_spec in content.stands;
        has_ops = laws.ops-proof u.entry entry t.proof t.completed ∙ content.has_ops;
      }

  -- On a valid account with a verified log: a commit that succeeds under the id of the challenge
  -- that `prepare_entry` returned enacts its specification.
  pub prepare_entry-Enacted :
      AppendLaws
      → (laws : EntryLaws) (env : Ambient) (spec : PrepareEntrySpec) (account : PlogAccount)
        (c : UpdateChallenge) (now : ℕ) (signature : String)
        (done : AccountSummary × UpdateKind × Option String)
      → IsValid account
      → IsVerified account.log
      → (prepare_entry env spec account).0 ≡ ok c
      → let r = commit_update now c.challenge_id signature (prepare_entry env spec account).1 in
        r.0 ≡ ok done → Enacted laws spec account r.1
  prepare_entry-Enacted appends laws env spec account c now signature done v verified prepared =
      let a = purge_expired_challenges env.now account in
      let id = new_challenge_id env.random in
      let (u, made, id_is, after_is) = prepared_challenge env spec account c prepared in
      let b = insert_pending id (pending_of env spec u a) a in
      let valid : IsValid b = rw after_is at (prepare_entry-IsValid env spec v) in
      let unpurged : assemble spec account ≡ ok u =
        unfold assemble head_entry purge_expired_challenges in made in
      rw (id_is, after_is)
        (commit_update_cases now id b (λ r. r.0 ≡ ok done → Enacted laws spec account r.1) signature
          (λ _ h. absurd (cc))
          λ p present h.
            let is = taken_challenge now id (pending_of env spec u a) p a valid present in
            let same : u.entry ≡ p.unsigned.entry =
              unfold pending_of in ap (λ q. q.unsigned.entry) is in
            let (entry, t) =
              CommitCase-Accepts signature p done
                (commit_pending-CommitCase signature p (forget id (purge_expired_challenges now b)))
                h in
            Accepts-Enacted appends laws spec account _ u entry verified unpurged
              (unfold purge_expired_challenges insert_pending in rw same t))
