-- ===== src/Plog/Verify.antt =====
-- The readers of a log against the plain meaning of "every entry verifies".
use logos_accounts.Prelude.{
  ℕ, String, ◌≡◌, refl, ◌≢◌, ◌↔◌, Bool, true, false, Option, none, some, List, [], ◌∷◌, ok, err,
  All, get_last?,
}
use logos_accounts.Error.{Error, plog_verify_failed}
use logos_accounts.Externals.{Externals, Entry, Log, Kvp}
use logos_accounts.Externals.Laws.{IsOk, IsVerified}
use logos_accounts.EntryUpdate.{last_entry}
use logos_accounts.Plog.{
  VerifyItem, ensure_loop, ensure_plog_verified, last_verified, verified_head,
}

module _ ⦃x : Externals⦄ where
  open x use {verify}

  ensure_loop_ok : (items : List VerifyItem) → All IsOk items → ensure_loop true items ≡ ok tt
  unfolding ensure_loop
  ensure_loop_ok [] h = refl
  ensure_loop_ok (ok i ∷ rest) h = ensure_loop_ok rest h.1
  ensure_loop_ok (err e ∷ rest) h = absurd h.0

  ensure_loop-All :
      (any : Bool) (items : List VerifyItem) → ensure_loop any items ≡ ok tt → All IsOk items
  unfolding ensure_loop
  ensure_loop-All any [] h = tt
  ensure_loop-All any (ok i ∷ rest) h = (tt, ensure_loop-All true rest h)
  ensure_loop-All any (err e ∷ rest) h = absurd (cc)

  ensure_loop_verified :
      (items : List VerifyItem)
      → (ensure_loop false items ≡ ok tt) ↔ ((items ≢ []) × All IsOk items)
  unfolding ensure_loop
  ensure_loop_verified [] = (λ h. absurd (cc), λ h. absurd (h.0 refl))
  ensure_loop_verified (ok i ∷ rest) =
      ((λ h. ((λ e. cc), (tt, ensure_loop-All true rest h))), λ h. ensure_loop_ok rest h.1.1)
  ensure_loop_verified (err e ∷ rest) = (λ h. absurd (cc), λ h. absurd h.1.0)

  -- `ensure_plog_verified` succeeds exactly on the logs that have an entry and whose entries all
  -- verify.
  pub ensure_plog_verified_iff : (log : Log) → (ensure_plog_verified log ≡ ok tt) ↔ IsVerified log
  unfolding ensure_plog_verified
  ensure_plog_verified_iff log =
      let both = ensure_loop_verified (verify log) in
      (
        (λ h. record { nonempty = (both.0 h).0; all_ok = (both.0 h).1 }),
        λ v. both.1 (v.nonempty, v.all_ok),
      )

  -- The last item, where all verify.
  pub record IsLast (items : List VerifyItem) (head : Entry × Kvp) : Type 0 where
    pub count : ℕ
    pub last : get_last? items ≡ some (ok (count, head.0, head.1))

  last_verified-IsLast :
      (n : ℕ) (e : Entry) (k : Kvp) (rest : List VerifyItem)
      → All IsOk rest
      → (head : Entry × Kvp) × (last_verified true (some (e, k)) rest ≡ ok head)
        × IsLast (ok (n, e, k) ∷ rest) head
  unfolding last_verified
  last_verified-IsLast n e k [] h = ((e, k), refl, record { count = n; last = refl })
  last_verified-IsLast n e k (ok (m, e', k') ∷ rest) h =
      let (head, found, l) = last_verified-IsLast m e' k' rest h.1 in
      (head, found, record { count = l.count; last = l.last })
  last_verified-IsLast n e k (err e' ∷ rest) h = absurd h.0

  verified_items :
      (items : List VerifyItem)
      → items ≢ []
      → All IsOk items
      → (head : Entry × Kvp) × (last_verified false none items ≡ ok head) × IsLast items head
  unfolding last_verified
  verified_items [] n h = absurd (n refl)
  verified_items (ok (m, e, k) ∷ rest) n h = last_verified-IsLast m e k rest h.1
  verified_items (err e ∷ rest) n h = absurd h.0

  -- On a log that has an entry and whose entries all verify, the reading loop and `last_entry`
  -- both succeed, on one and the same entry: that of the last item of the verification.
  pub verified_head-last_entry :
      (log : Log)
      → IsVerified log
      → (head : Entry × Kvp) × (verified_head log ≡ ok head)
        × IsLast (verify log) head
        × (last_entry log ≡ ok head.0)
  verified_head-last_entry log v =
      let (head, found, l) = verified_items (verify log) v.nonempty v.all_ok in
      (head, (unfold verified_head in found), l, (unfold last_entry in rw l.last refl))

  last_verified_error :
      (any : Bool) (last : Option (Entry × Kvp)) (items : List VerifyItem) (e : Error)
      → (any ≡ true → last ≢ none)
      → last_verified any last items ≡ err e
      → (m : String) × (e ≡ plog_verify_failed m)
  unfolding last_verified
  last_verified_error true none [] e n h = absurd (n refl refl)
  last_verified_error true (some l) [] e n h = absurd (cc)
  last_verified_error false last [] e n h = ("empty provenance log", (cc))
  last_verified_error any last (ok (m, e', k) ∷ rest) e n h =
      last_verified_error true (some (e', k)) rest e (λ _ s. cc) h
  last_verified_error any last (err m ∷ rest) e n h = (m, (cc))

  -- If the reading loop fails, then with a failed verification: the `expect` at its end never
  -- panics.
  pub verified_head_error :
      (log : Log) (e : Error)
      → verified_head log ≡ err e
      → (m : String) × (e ≡ plog_verify_failed m)
  unfolding verified_head
  verified_head_error log e h = last_verified_error false none (verify log) e (λ t. cc) h
