-- ===== src/Tests/Caches.antt =====
-- The theorems on the cache, on a few calls.
use logos_accounts.Prelude.{◌≡◌, ◌≢◌, none, some, List, [], ◌∷◌}
use logos_accounts.Cache.{new_cache}
use logos_accounts.Cache.Abstract.{
  CacheCall, put, read, ask, rewrite, take_out, wipe, cache_answers, accounts_answers,
}
use logos_accounts.Cache.Refines.{cache_answers-accounts_answers}
use logos_accounts.Dispatch as Dispatch
use logos_accounts.Dispatch.{method_of, dispatch_impl, instance_or_default}
use logos_accounts.Dispatch.Local.{IsLocal, dispatch_impl-IsLocal}
use logos_accounts.Tests.Demo.{demo}
use logos_accounts.Tests.Accounts.{opened, waiting}
use logos_accounts.Tests.Sessions.{demo_json, demo_surroundings, holding, cache_of-IsValid}

-- An account goes in, is rewritten, read, taken out and asked for.
abbrev cache_calls : List CacheCall
cache_calls =
    put "vlad" opened
    ∷ rewrite "vlad" waiting
    ∷ read "vlad"
    ∷ take_out "vlad"
    ∷ ask "vlad"
    ∷ read "vlad"
    ∷ wipe
    ∷ []

cache_answers-accounts_answers_example :
    cache_answers cache_calls new_cache ≡ accounts_answers cache_calls (λ h. none)
cache_answers-accounts_answers_example = cache_answers-accounts_answers cache_calls

not_clear_cache : method_of "import_plog" ≢ some Dispatch.clear_cache
unfolding method_of
not_clear_cache e = cc

dispatch_impl-IsLocal_example :
    IsLocal
      (holding waiting)
      (dispatch_impl demo_json demo_surroundings "import_plog"
        (some "w" ∷ [])
        (some (holding waiting))).1
unfolding instance_or_default
dispatch_impl-IsLocal_example =
    dispatch_impl-IsLocal demo_json demo_surroundings "import_plog" (some "w" ∷ [])
      (some (holding waiting)) not_clear_cache (cache_of-IsValid waiting)
