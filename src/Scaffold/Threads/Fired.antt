-- ===== src/Scaffold/Threads/Fired.antt =====
-- When the hook has been called, under interleaved threads.
use logos_accounts.Prelude.{◌≤◌, ℕ, ◌≡◌, ap, sym, ◌∙◌, ◌≢◌, inl, inr, Bool-cases, none, List, arith}
use logos_accounts.Externals.{Externals}
use logos_accounts.Provider.{Json}
use logos_accounts.Scaffold.Emit.{Effect, Wire}
use logos_accounts.Scaffold.Ready.{hook_calls}
use logos_accounts.Scaffold.Hosted.{MethodCall}
use logos_accounts.Scaffold.Threads.{idle}
use logos_accounts.Scaffold.Threads.Runs.{System, Run}
use logos_accounts.Scaffold.Threads.Hook.{is_calling, owes}
use logos_accounts.Scaffold.Threads.Once.{Run-IsOnce, IsOnce-calling}

module _ ⦃x : Externals⦄ (json : Json) (wire : Wire) where
  -- Whatever threads call the entry points, in any interleaving, `on_context_ready` is called at
  -- most once.
  pub Run-hook_calls :
      {history : List MethodCall} {trace : List Effect} {s : System}
      → Run json wire history trace s
      → hook_calls trace ≤ 1
  Run-hook_calls {trace = trace} {s = s} run =
      let v = Run-IsOnce json wire run in
      elim (Bool-cases s.world.statics.hook_fired) [
        | inr fresh ↦ omega (arith, v.not_yet fresh)
        | inl done ↦ elim (v.once done) [
          | inl one ↦ omega (arith, one)
          | inr (i, there) ↦ omega (arith, IsOnce-calling s (hook_calls trace) v i there)
        ]
      ]

  -- Whatever threads call the entry points, in any interleaving: once no thread is in a call, and a
  -- context and a callback are set, `on_context_ready` has been called, and only once. No order of
  -- the calls that set them loses it.
  pub Run-hooked :
      {history : List MethodCall} {trace : List Effect} {s : System}
      → Run json wire history trace s
      → ((i : ℕ) → s.pcs i ≡ idle)
      → s.world.statics.context ≢ none
      → s.world.statics.callback ≢ none
      → hook_calls trace ≡ 1
  Run-hooked {s = s} run rest there heard =
      let v = Run-IsOnce json wire run in
      elim (Bool-cases s.world.statics.hook_fired) [
        | inr fresh ↦
            let (i, on) = v.owed (there, heard, fresh) in absurd (cc (sym on ∙ ap owes (rest i)))
        | inl done ↦ elim (v.once done) [
          | inl one ↦ one
          | inr (i, on) ↦ absurd (cc (sym on ∙ ap is_calling (rest i)))
        ]
      ]
