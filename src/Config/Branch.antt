-- ===== src/Config/Branch.antt =====
-- Branch paths: what `parse_branch_path` accepts.
use logos_accounts.Prelude.{String, ◌≡◌, ◌≢◌, ◌↔◌, ok, true, arith}
use text.Mathlib.TextEquality.{eq_iff}
use logos_accounts.Externals.{Externals, Key}
use logos_accounts.Config.{parse_branch_path}

module _ ⦃x : Externals⦄ where
  open x use {key_try_from, as_str, is_branch}

  -- `parse_branch_path` accepts exactly the paths that read as a key which is a branch and whose text
  -- is not that of the root, and returns that key.
  pub parse_branch_path_iff :
      (path : String) (key : Key)
      → (parse_branch_path path ≡ ok key)
        ↔ ((key_try_from path ≡ ok key) × (is_branch key ≡ true) × (as_str key ≢ "/"))
  unfolding parse_branch_path
  parse_branch_path_iff path key = (
    (λ h. ground (arith, h, eq_iff (as_str key) "/")),
    λ (parsed, branch, other). ground (arith, parsed, branch, other, eq_iff (as_str key) "/"),
  )
