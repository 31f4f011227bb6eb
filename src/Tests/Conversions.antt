-- ===== src/Tests/Conversions.antt =====
-- The theorem on verification, on signatures that are the signed bytes.
use logos_accounts.Prelude.{◌≡◌, [], ◌∷◌, ok, err, Bool, true, ◌↔◌, bytes_eq, ◌==◌, if◌then◌else◌}
use logos_accounts.Error.{Error, message}
use logos_accounts.Verifier.{
  IsVerifiedBy, IsRefusedWith, VerifyView, async_verify, verify_multikey,
  async_verify-verify_multikey,
}
use logos_accounts.Externals.{Bytes}
use logos_accounts.Tests.Demo.{demo}

-- A signature is right if it is the signed bytes.
abbrev demo_views : VerifyView
demo_views = record {
  View = Bytes;
  verify_view = λ mk. ok mk;
  verify = λ view signature data_bytes.
      if signature == data_bytes then ok tt else err (message "wrong signature");
}

async_verify-verify_multikey_example :
    ((verify_multikey demo_views (1 ∷ []) (4 ∷ []) (4 ∷ []) ≡ ok tt)
      ↔ IsVerifiedBy demo_views (1 ∷ []) (4 ∷ []) (4 ∷ []))
    × ((answer : Bool)
        → (async_verify demo_views (1 ∷ []) (4 ∷ []) (4 ∷ []) ≡ ok answer)
          ↔ ((answer ≡ true) × IsVerifiedBy demo_views (1 ∷ []) (4 ∷ []) (4 ∷ [])))
    × ((e : Error)
        → ((verify_multikey demo_views (1 ∷ []) (4 ∷ []) (4 ∷ []) ≡ err e)
            ↔ IsRefusedWith demo_views (1 ∷ []) (4 ∷ []) (4 ∷ []) e)
          × ((async_verify demo_views (1 ∷ []) (4 ∷ []) (4 ∷ []) ≡ err e)
              ↔ IsRefusedWith demo_views (1 ∷ []) (4 ∷ []) (4 ∷ []) e))
async_verify-verify_multikey_example =
    async_verify-verify_multikey demo_views (1 ∷ []) (4 ∷ []) (4 ∷ [])
