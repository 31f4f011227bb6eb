-- ===== src/Delegations/Listed.antt =====
-- What `list_delegations` returns: the grants that the head's locks and store make, by path.
use Prim.Native.String.{◌++◌}
use logos_accounts.Prelude.{
  ◌≢◌, Bool-cases, ==_ne, string_eq, ◌≡◌, refl, true, false, Option, none, some, List, [], ◌∷◌, ok,
  arith, In, here, there, Result-cases, Option-cases, inl, inr, ◌⊎◌, ap, sym, subst,
}
use logos_accounts.Prelude.Sort.{sort_by}
use logos_accounts.Prelude.Sort.Order.{
  IsSorted, sort_by-IsSorted, sort_by-In, In-sort_by, is_le_total,
}
use logos_accounts.Externals.{Externals, Key, Script, Kvp, Entry, Log}
use logos_accounts.Plog.{verified_head}
use logos_accounts.Config.{delegate_pubkey_key, is_root}
use logos_accounts.Delegations.Granting.{
  ChecksKey, FirstGiven, is_delegated-ChecksKey, ChecksKey-is_delegated, find_grant-FirstGiven,
  FirstGiven-find_grant,
}
use logos_accounts.Delegations.{
  PathDelegation, path_le, find_grant, delegation_of, delegations_of, push_delegation,
  list_plog_delegations,
}

module _ ⦃x : Externals⦄ where
  open x use {key_try_from, as_str, key_to_string, is_branch, script_path, locks}

  -- The lock grants its branch to a key: it is bound to a branch other than the root, its text
  -- checks the branch's own key or joins `pubkey` to a branch, and some value in the store under
  -- the branch's `pubkey` gives a key text, of which `d` has the first.
  pub record Grants (kvp : Kvp) (lock : Script) (d : PathDelegation) : Type 0 where
    pub branch : is_branch (script_path lock) ≡ true
    pub not_root : as_str (script_path lock) ≢ "/"
    pub checks : ChecksKey lock
    pub pk_key : Key
    pub pk_path : key_try_from (as_str (script_path lock) ++ "pubkey") ≡ ok pk_key
    pub stored : FirstGiven pk_key kvp d.pubkey
    pub path : d.path ≡ key_to_string (script_path lock)

  key_of_branch :
      (branch k : Key)
      → is_branch branch ≡ true
      → key_try_from (as_str branch ++ "pubkey") ≡ ok k
      → delegate_pubkey_key branch ≡ ok k
  key_of_branch branch k b e = unfold delegate_pubkey_key in rw (b, e) refl

  pub branch_of_key :
      (branch k : Key)
      → delegate_pubkey_key branch ≡ ok k
      → key_try_from (as_str branch ++ "pubkey") ≡ ok k
  branch_of_key branch k h = elim (Bool-cases (is_branch branch)) [
    | inr leaf ↦ absurd (unfold delegate_pubkey_key in ground (arith, h, leaf))
    | inl b ↦ elim (Result-cases (key_try_from (as_str branch ++ "pubkey"))) [
      | inl (k', e) ↦ unfold delegate_pubkey_key in ground (arith, h, b, e)
      | inr (e', bad) ↦ absurd (unfold delegate_pubkey_key in ground (arith, h, b, bad))
    ]
  ]

  not_root-false : (p : Key) → as_str p ≢ "/" → is_root (as_str p) ≡ false
  not_root-false p h = unfold is_root in ==_ne ⦃e = string_eq⦄ (as_str p) "/" h

  false-not_root : (p : Key) → is_root (as_str p) ≡ false → as_str p ≢ "/"
  unfolding is_root
  false-not_root p h same = absurd (ground (arith, h, (string_eq.decides (as_str p) "/").1 same))

  delegation_of-Grants :
      (kvp : Kvp) (lock : Script) (d : PathDelegation)
      → delegation_of kvp lock ≡ some d
      → Grants kvp lock d
  delegation_of-Grants kvp lock d h = elim (Result-cases (delegate_pubkey_key (script_path lock))) [
    | inr (e, bad) ↦ absurd (unfold delegation_of in ground (arith, bad))
    | inl (k, e) ↦ elim (Option-cases (find_grant k kvp)) [
      | inl missing ↦ absurd (unfold delegation_of in ground (arith, e, missing))
      | inr (pk, found) ↦ record {
        branch = unfold delegation_of in ground (arith, e, found);
        not_root =
            false-not_root (script_path lock) (unfold delegation_of in ground (arith, e, found));
        checks = is_delegated-ChecksKey lock (unfold delegation_of in ground (arith, e, found));
        pk_key = k;
        pk_path = branch_of_key (script_path lock) k e;
        stored =
            find_grant-FirstGiven k kvp d.pubkey (unfold delegation_of in ground (arith, e, found));
        path = unfold delegation_of in ground (arith, e, found);
      }
    ]
  ]

  Grants-delegation_of :
      (kvp : Kvp) (lock : Script) (d : PathDelegation)
      → Grants kvp lock d
      → delegation_of kvp lock ≡ some d
  unfolding delegation_of
  Grants-delegation_of kvp lock d g = ground (
    arith,
    g.branch,
    not_root-false (script_path lock) g.not_root,
    ChecksKey-is_delegated lock g.checks,
    key_of_branch (script_path lock) g.pk_key g.branch g.pk_path,
    FirstGiven-find_grant g.pk_key kvp d.pubkey g.stored,
    g.path,
  )

  push-In :
      (o : Option PathDelegation) (d : PathDelegation) (out : List PathDelegation)
      → In d (push_delegation o out)
      → (o ≡ some d) ⊎ In d out
  unfolding push_delegation
  push-In none d out i = inr i
  push-In (some d') d out (here e) = inl (ap some (sym e))
  push-In (some d') d out (there i) = inr i

  In-push :
      (o : Option PathDelegation) (d : PathDelegation) (out : List PathDelegation)
      → (o ≡ some d) ⊎ In d out
      → In d (push_delegation o out)
  unfolding push_delegation
  In-push none d out (inl e) = absurd (cc)
  In-push none d out (inr i) = i
  In-push (some d') d out (inl e) = here (cc)
  In-push (some d') d out (inr i) = there i

  -- The lock that grants `d`, among the head's.
  abbrev pub Granted : Kvp → List Script → PathDelegation → Type 0
  Granted kvp scripts d = (lock : Script) × In lock scripts × Grants kvp lock d

  delegations_of-Granted :
      (kvp : Kvp) (scripts : List Script) (d : PathDelegation)
      → In d (delegations_of kvp scripts)
      → Granted kvp scripts d
  unfolding delegations_of
  delegations_of-Granted kvp [] d i = elim i [ ]
  delegations_of-Granted kvp (s ∷ rest) d i =
      elim (push-In (delegation_of kvp s) d (delegations_of kvp rest) i) [
        | inl e ↦ (s, here refl, delegation_of-Grants kvp s d e)
        | inr j ↦ let (lock, at, g) = delegations_of-Granted kvp rest d j in (lock, there at, g)
      ]

  Granted-delegations_of :
      (kvp : Kvp) (scripts : List Script) (lock : Script) (d : PathDelegation)
      → In lock scripts
      → Grants kvp lock d
      → In d (delegations_of kvp scripts)
  unfolding delegations_of
  Granted-delegations_of kvp [] lock d i g = elim i [ ]
  Granted-delegations_of kvp (s ∷ rest) lock d (here e) g =
      In-push (delegation_of kvp s) d (delegations_of kvp rest)
        (inl (subst (λ l. delegation_of kvp l ≡ some d) e (Grants-delegation_of kvp lock d g)))
  Granted-delegations_of kvp (s ∷ rest) lock d (there i) g =
      In-push (delegation_of kvp s) d (delegations_of kvp rest)
        (inr (Granted-delegations_of kvp rest lock d i g))

  -- The delegations of a log: in the order of their paths, and exactly those that some lock of the
  -- verified head grants.
  pub record Lists (head : Entry × Kvp) (out : List PathDelegation) : Type 0 where
    pub sorted : IsSorted path_le out
    pub sound : (d : PathDelegation) → In d out → Granted head.1 (locks head.0) d
    pub complete : (d : PathDelegation) → Granted head.1 (locks head.0) d → In d out

  -- On a log that verifies, with a head entry and its store, the listing succeeds. It is sorted by
  -- path and holds exactly the delegations that some lock of the head grants: the lock is bound to
  -- a branch other than the root; its text has a check of a signature with that branch's `pubkey`,
  -- or has `branch("pubkey")`, whatever that resolves to; and the key is the first that a value
  -- under the branch's `pubkey` gives: the encoding of the key that stored data decodes to, or a
  -- stored text as it is.
  pub list_plog_delegations-Lists :
      (log : Log) (head : Entry × Kvp)
      → verified_head log ≡ ok head
      → (out : List PathDelegation) × (list_plog_delegations log ≡ ok out) × Lists head out
  list_plog_delegations-Lists log head h =
      let found = delegations_of head.1 (locks head.0) in
      let out = sort_by path_le found in
      (
        out,
        (unfold list_plog_delegations in rw h refl),
        record {
          sorted = sort_by-IsSorted path_le (λ a b. is_le_total a.path b.path) found;
          sound =
              λ d i. delegations_of-Granted head.1 (locks head.0) d (sort_by-In path_le d found i);
          complete = λ d g.
              In-sort_by path_le d found
                (Granted-delegations_of head.1 (locks head.0) g.0 d g.1 g.2);
        },
      )
