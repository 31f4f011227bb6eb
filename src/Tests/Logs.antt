-- ===== src/Tests/Logs.antt =====
-- The theorems on whole logs, on the small libraries.
use logos_accounts.Prelude.{String, ◌≡◌, refl, ◌↔◌, [], ◌∷◌, ok}
use logos_accounts.Error.{plog_verify_failed}
use logos_accounts.Externals.{Entry, Kvp}
use logos_accounts.Externals.Laws.{IsVerified}
use logos_accounts.EntryUpdate.{last_entry}
use logos_accounts.Plog.{ensure_plog_verified, verified_head}
use logos_accounts.Plog.Verify.{
  IsLast, ensure_plog_verified_iff, verified_head-last_entry, verified_head_error,
}
use logos_accounts.Tests.Demo.{first_entry, demo, DemoLog}
use logos_accounts.Tests.Laws.{opened_log-IsVerified}
use logos_accounts.Tests.Accounts.{second_entry, opened_log}

ensure_plog_verified_iff_example : (ensure_plog_verified opened_log ≡ ok tt) ↔ IsVerified opened_log
ensure_plog_verified_iff_example = ensure_plog_verified_iff opened_log

verified_head-last_entry_example :
    (head : Entry × Kvp) × (verified_head opened_log ≡ ok head)
    × IsLast (demo.verify opened_log) head
    × (last_entry opened_log ≡ ok head.0)
verified_head-last_entry_example = verified_head-last_entry opened_log opened_log-IsVerified

-- Its second entry has no proof.
abbrev broken_log : DemoLog
broken_log = record { demo_vlad = "vlad"; entries = first_entry ∷ second_entry ∷ [] }

verified_head_error_example : (m : String) × (plog_verify_failed "bad proof" ≡ plog_verify_failed m)
unfolding verified_head
verified_head_error_example = verified_head_error broken_log (plog_verify_failed "bad proof") refl
