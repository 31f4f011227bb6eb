-- ===== src/Delegations/Closest.antt =====
-- The signer for a branch is its longest proper ancestor among the delegated branches.
use Prim.Native.String.{len}
use logos_accounts.Prelude.{
  ℕ, ◌≤◌, String, ◌≡◌, refl, ◌≢◌, ◌⊎◌, inl, inr, true, Option, none, some, List, [], ◌∷◌, Result,
  ok, err, ◌>>=◌, arith, In, here, there, Result-cases, ◌∙◌, sym, subst,
}
use logos_accounts.Error.{Error}
use logos_accounts.Externals.{Externals, Key, key_instance}
use logos_accounts.Config.{parse_branch_path, delegate_pubkey_key, pubkey_key_path}
use logos_accounts.Delegations.{
  PathDelegation, consider, consider_key, closest_parent, signing_key,
  resolve_closest_parent_signing_key,
}

module _ ⦃x : Externals⦄ (target : Key) where
  open x use {as_str, key_to_string, parent_of, key_eq}

  -- `d` delegates the branch `k`, a proper ancestor of the target.
  pub record IsAncestor (d : PathDelegation) (k : Key) : Type 0 where
    pub parsed : parse_branch_path d.path ≡ ok k
    pub proper : k ≢ target
    pub above : parent_of k target ≡ true

  abbrev Covers : Option Key → ℕ → Type 0
  Covers none n = ⊥
  Covers (some b) n = n ≤ len (as_str b)

  consider_key-Covers :
      (best : Option Key) (k : Key) (n : ℕ) → Covers best n → Covers (consider_key target best k) n
  unfolding consider_key
  consider_key-Covers none k n c = absurd c
  consider_key-Covers (some b) k n c = ground arith

  consider_key_new :
      (best : Option Key) (k : Key)
      → k ≢ target
      → parent_of k target ≡ true
      → Covers (consider_key target best k) (len (as_str k))
  unfolding consider_key
  consider_key_new none k p a = ground (arith, key_eq.decides k target)
  consider_key_new (some b) k p a = ground (arith, key_eq.decides k target)

  consider_parsed :
      (best : Option Key) (d : PathDelegation) (k : Key)
      → parse_branch_path d.path ≡ ok k
      → consider target best d ≡ consider_key target best k
  consider_parsed best d k e = unfold consider in rw (e, consider) refl

  consider_unparsed :
      (best : Option Key) (d : PathDelegation) (e : Error)
      → parse_branch_path d.path ≡ err e
      → consider target best d ≡ best
  consider_unparsed best d e bad = unfold consider in rw (bad, consider) refl

  consider-Covers :
      (best : Option Key) (d : PathDelegation) (n : ℕ)
      → Covers best n
      → Covers (consider target best d) n
  consider-Covers best d n c = elim (Result-cases (parse_branch_path d.path)) [
    | inl (k, e) ↦
        subst (λ b. Covers b n) (sym (consider_parsed best d k e)) (consider_key-Covers best k n c)
    | inr (e, bad) ↦ subst (λ b. Covers b n) (sym (consider_unparsed best d e bad)) c
  ]

  closest_parent-Covers :
      (best : Option Key) (ds : List PathDelegation) (n : ℕ)
      → Covers best n
      → Covers (closest_parent target best ds) n
  unfolding closest_parent
  closest_parent-Covers best [] n c = c
  closest_parent-Covers best (d ∷ ds) n c =
      closest_parent-Covers (consider target best d) ds n (consider-Covers best d n c)

  -- Every delegated ancestor is at most as long as the one found.
  closest_parent_max :
      (best : Option Key) (ds : List PathDelegation) (d : PathDelegation) (k : Key)
      → In d ds
      → IsAncestor d k
      → Covers (closest_parent target best ds) (len (as_str k))
  unfolding closest_parent
  closest_parent_max best [] d k i a = elim i [ ]
  closest_parent_max best (d' ∷ ds) d k (here e) a =
      closest_parent-Covers (consider target best d') ds (len (as_str k)) (
        subst (λ b. Covers b (len (as_str k))) (sym (consider_parsed best d' k (rw e at a.parsed)))
          (consider_key_new best k a.proper a.above))
  closest_parent_max best (d' ∷ ds) d k (there i) a =
      closest_parent_max (consider target best d') ds d k i a

  -- Where the result of the loop comes from.
  data Origin (best : Option Key) (ds : List PathDelegation) : Option Key → Type 0 where
    kept : {r : Option Key} → r ≡ best → Origin best ds r
    found :
        {r : Option Key} (d : PathDelegation) (k : Key)
        → In d ds
        → IsAncestor d k
        → r ≡ some k
        → Origin best ds r

  consider_key-origin :
      (best : Option Key) (k : Key)
      → (consider_key target best k ≡ best)
        ⊎ ((consider_key target best k ≡ some k) × (k ≢ target) × (parent_of k target ≡ true))
  unfolding consider_key
  consider_key-origin best k = ground (arith, key_eq.decides k target)

  consider-Origin :
      (best : Option Key) (d : PathDelegation) (ds : List PathDelegation)
      → Origin best (d ∷ ds) (consider target best d)
  consider-Origin best d ds = elim (Result-cases (parse_branch_path d.path)) [
    | inr (e, bad) ↦ kept (consider_unparsed best d e bad)
    | inl (k, e) ↦ elim (consider_key-origin best k) [
      | inl same ↦ kept (consider_parsed best d k e ∙ same)
      | inr (new, proper, above) ↦
          found d k (here refl) (record { parsed = e; proper = proper; above = above })
            (consider_parsed best d k e ∙ new)
    ]
  ]

  Origin-step :
      (best : Option Key) (d : PathDelegation) (ds : List PathDelegation) {r : Option Key}
      → Origin (consider target best d) ds r
      → Origin best (d ∷ ds) (consider target best d)
      → Origin best (d ∷ ds) r
  Origin-step best d ds (kept e) (kept e') = kept (e ∙ e')
  Origin-step best d ds (kept e) (found d' k i a e') = found d' k i a (e ∙ e')
  Origin-step best d ds (found d' k i a e) o = found d' k (there i) a e

  closest_parent-Origin :
      (best : Option Key) (ds : List PathDelegation)
      → Origin best ds (closest_parent target best ds)
  unfolding closest_parent
  closest_parent-Origin best [] = kept refl
  closest_parent-Origin best (d ∷ ds) =
      Origin-step best d ds (closest_parent-Origin (consider target best d) ds)
        (consider-Origin best d ds)

  -- How the signer is chosen: no delegated branch lies above the target and `/pubkey` signs, or a
  -- longest such branch signs by its own `pubkey`.
  pub data ClosestSigner (ds : List PathDelegation) (r : Result String Error) : Type 0 where
    by_root :
        ((d : PathDelegation) (k : Key) → In d ds → ¬ IsAncestor d k)
        → r ≡ ok (key_to_string pubkey_key_path)
        → ClosestSigner ds r
    by_branch :
        (d : PathDelegation) (b : Key)
        → In d ds
        → IsAncestor d b
        → ((d' : PathDelegation) (k : Key)
            → In d' ds
            → IsAncestor d' k
            → len (as_str k) ≤ len (as_str b))
        → r ≡ (delegate_pubkey_key b >>= λ k. ok (key_to_string k))
        → ClosestSigner ds r

  closest_signer :
      (ds : List PathDelegation) (best : Option Key)
      → closest_parent target none ds ≡ best
      → Origin none ds best
      → ClosestSigner ds (signing_key best)
  unfolding signing_key
  closest_signer ds best e (kept n) =
      rw n (by_root (λ d k i a. rw (e ∙ n) at (closest_parent_max none ds d k i a)) refl)
  closest_signer ds best e (found d b i a s) =
      rw s
        (by_branch d b i a (λ d' k j a'. rw (e ∙ s) at (closest_parent_max none ds d' k j a')) refl)

  -- The signing key for a branch: if no delegated branch is a proper ancestor of it, the root's
  -- `/pubkey`; otherwise the `pubkey` key of a delegated proper ancestor that no other delegated
  -- proper ancestor exceeds in length.
  pub resolve-ClosestSigner :
      (ds : List PathDelegation) → ClosestSigner ds (resolve_closest_parent_signing_key target ds)
  resolve-ClosestSigner ds =
      unfold resolve_closest_parent_signing_key in
      closest_signer ds (closest_parent target none ds) refl (closest_parent-Origin none ds)
