-- ===== src/Tests/Laws.antt =====
-- The small libraries keep what the documentation promises.
use logos_accounts.Prelude.{
  String, ◌≡◌, refl, ◌≢◌, true, Bool-cases, inl, inr, List, [], ◌∷◌, ◌++◌, All, arith,
}
use logos_accounts.Externals.{Value}
use logos_accounts.Externals.Laws.{IsOk, IsVerified, AppendLaws, KeyLaws, VladLaws, PublicLaws}
use logos_accounts.Tests.Accounts.{opened_log}
use logos_accounts.Tests.Demo.{demo, DemoEntry, has_proof, verify_from, apply_ops}

pub demo-KeyLaws : KeyLaws
demo-KeyLaws = record { parse_print = λ k. refl; path_of_code = λ k source. refl }

snoc_nonempty :
    (kvp : List (String × Value)) (es : List DemoEntry) (e : DemoEntry)
    → verify_from kvp (es ++ e ∷ []) ≢ []
snoc_nonempty kvp [] e h = cc
snoc_nonempty kvp (e' ∷ es) e h = cc

snoc-IsOk :
    (kvp : List (String × Value)) (es : List DemoEntry) (e : DemoEntry)
    → has_proof e ≡ true
    → All IsOk (verify_from kvp es)
    → All IsOk (verify_from kvp (es ++ e ∷ []))
snoc-IsOk kvp [] e p h = rw p (tt, tt)
snoc-IsOk kvp (e' ∷ es) e p h = (h.0, snoc-IsOk (apply_ops e'.ops kvp) es e p h.1)

pub demo-AppendLaws : AppendLaws
demo-AppendLaws = record {
  rejected_keeps = λ log log' entry e h. elim (Bool-cases (has_proof entry)) [
    | inl p ↦ absurd (ground (arith, p, h))
    | inr p ↦ ground (arith, p, h)
  ];
  accepted_verifies = λ log log' entry h v. elim (Bool-cases (has_proof entry)) [
    | inl p ↦
        let same : record log { entries = log.entries ++ entry ∷ [] } ≡ log' =
          ground (arith, p, h) in
        rw (← same) (record {
          nonempty = snoc_nonempty [] log.entries entry;
          all_ok = snoc-IsOk [] log.entries entry p v.all_ok;
        })
    | inr p ↦ absurd (ground (arith, p, h))
  ];
  accepted_keeps_vlad = λ log log' entry h. elim (Bool-cases (has_proof entry)) [
    | inl p ↦ ground (arith, p, h)
    | inr p ↦ ground (arith, p, h)
  ];
}

pub demo-VladLaws : VladLaws
demo-VladLaws = record { decode_encode = λ v. refl }

pub opened_log-IsVerified : IsVerified opened_log
opened_log-IsVerified = record { nonempty = λ e. cc; all_ok = (tt, tt) }

pub demo-PublicLaws : PublicLaws
demo-PublicLaws = record { public = λ k p h. ground (arith, h) }
