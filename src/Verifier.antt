-- ===== src/Verifier.antt =====
-- rust-lib/src/verifier.rs: the verification of a Multisig with a Multikey.
use logos_accounts.Prelude.{
  Bool, true, ◌≡◌, refl, ◌↔◌, ◌⊎◌, >>=-eq-ok, Result, ok, err, ◌>>=◌, Result-cases, inl, inr, arith,
}
use logos_accounts.Error.{Error}
use logos_accounts.Externals.{Externals, Bytes, Multikey, Multisig}

module _ ⦃x : Externals⦄ where
  -- `key.verify_view()?` and, on the view, `verify(signature, Some(data))?`.
  pub record VerifyView : Type 1 where
    pub View : Type 0
    pub verify_view : Multikey → Result View Error
    pub verify : View → Multisig → Bytes → Result (Unit {0}) Error

  module _ (views : VerifyView) where
    -- `SyncVerifier::verify`
    unfoldable pub sync_verify : Multikey → Bytes → Multisig → Result (Unit {0}) Error
    sync_verify key data_bytes signature =
        views.verify_view key >>= λ view. views.verify view signature data_bytes

    -- `AsyncVerifier::verify`, once awaited
    unfoldable pub async_verify : Multikey → Bytes → Multisig → Result Bool Error
    unfolding sync_verify
    async_verify key data_bytes signature = elim (sync_verify key data_bytes signature) [
      | ok _ ↦ ok true
      | err e ↦ err e
    ]

    unfoldable pub verify_multikey : Multikey → Bytes → Multisig → Result (Unit {0}) Error
    unfolding sync_verify
    verify_multikey key data_bytes signature = sync_verify key data_bytes signature

    -- The key has a verifying view, on which the signature is right.
    abbrev pub IsVerifiedBy : Multikey → Bytes → Multisig → Type 0
    IsVerifiedBy key data_bytes signature =
        (view : views.View) × (views.verify_view key ≡ ok view)
        × (views.verify view signature data_bytes ≡ ok tt)

    -- The error is that of the key, which has no verifying view, or that of the signature.
    abbrev pub IsRefusedWith : Multikey → Bytes → Multisig → Error → Type 0
    IsRefusedWith key data_bytes signature e =
        (views.verify_view key ≡ err e)
        ⊎ ((view : views.View) × (views.verify_view key ≡ ok view)
            × (views.verify view signature data_bytes ≡ err e))

    sync_verify-eq-ok :
        (key : Multikey) (data_bytes : Bytes) (signature : Multisig)
        → (sync_verify key data_bytes signature ≡ ok tt) ↔ IsVerifiedBy key data_bytes signature
    unfolding sync_verify
    sync_verify-eq-ok key data_bytes signature =
        ((λ h. >>=-eq-ok (views.verify_view key) _ h), (λ v. rw v.1 v.2))

    sync_verify-eq-err :
        (key : Multikey) (data_bytes : Bytes) (signature : Multisig) (e : Error)
        → (sync_verify key data_bytes signature ≡ err e) ↔ IsRefusedWith key data_bytes signature e
    unfolding sync_verify
    sync_verify-eq-err key data_bytes signature e = (
      (λ h. elim (Result-cases (views.verify_view key)) [
        | inl (view, found) ↦ inr (view, found, rw found at h)
        | inr (e', bad) ↦ inl (ground (arith, h, bad))
      ]),
      (λ r. elim r [ inl bad ↦ rw bad refl | inr (view, found, bad) ↦ rw found bad ]),
    )

    async_verify-sync_verify :
        (key : Multikey) (data_bytes : Bytes) (signature : Multisig)
        → ((answer : Bool)
            → (async_verify key data_bytes signature ≡ ok answer)
              ↔ ((answer ≡ true) × (sync_verify key data_bytes signature ≡ ok tt)))
          × ((e : Error)
              → (async_verify key data_bytes signature ≡ err e)
                ↔ (sync_verify key data_bytes signature ≡ err e))
    async_verify-sync_verify key data_bytes signature =
        elim (Result-cases (sync_verify key data_bytes signature)) [
          | inl (_, good) ↦
              unfold async_verify in
              rw (good, async_verify) ((λ answer. ground arith), λ e. ground arith)
          | inr (e', bad) ↦
              unfold async_verify in
              rw (bad, async_verify) ((λ answer. ground arith), λ e. ground arith)
        ]

    -- Both verifiers succeed exactly where the key has a verifying view on which the signature of
    -- the data is right. The asynchronous one then answers `true`, and never `false`: where the key
    -- has no such view, or the signature is not right, both return that error.
    pub async_verify-verify_multikey :
        (key : Multikey) (data_bytes : Bytes) (signature : Multisig)
        → ((verify_multikey key data_bytes signature ≡ ok tt)
            ↔ IsVerifiedBy key data_bytes signature)
          × ((answer : Bool)
              → (async_verify key data_bytes signature ≡ ok answer)
                ↔ ((answer ≡ true) × IsVerifiedBy key data_bytes signature))
          × ((e : Error)
              → ((verify_multikey key data_bytes signature ≡ err e)
                  ↔ IsRefusedWith key data_bytes signature e)
                × ((async_verify key data_bytes signature ≡ err e)
                    ↔ IsRefusedWith key data_bytes signature e))
    unfolding verify_multikey
    async_verify-verify_multikey key data_bytes signature =
        let good = sync_verify-eq-ok key data_bytes signature in
        let (answers, fails) = async_verify-sync_verify key data_bytes signature in
        (
          good,
          (λ answer. (
            (λ h. let (is, v) = (answers answer).0 h in (is, good.0 v)),
            (λ c. (answers answer).1 (c.0, good.1 c.1)),
          )),
          λ e.
              let bad = sync_verify-eq-err key data_bytes signature e in
              (bad, ((λ h. bad.0 ((fails e).0 h)), λ r. (fails e).1 (bad.1 r))),
        )
