-- ===== src/Scaffold/Threads/Serial.antt =====
-- The module behind interleaved threads: the methods take effect one after the other.
use logos_accounts.Prelude.{ℕ, ◌≡◌, refl, sym, ap, ◌∙◌, none, List, [], ◌∷◌}
use logos_accounts.Externals.{Externals}
use logos_accounts.Provider.{Json}
use logos_accounts.Dispatch.{dispatch_impl, instance_or_default}
use logos_accounts.Dispatch.Sessions as Methods
use logos_accounts.Scaffold.Emit.{Effect, Wire}
use logos_accounts.Scaffold.{initial, stamp, logos_module_install}
use logos_accounts.Scaffold.Hosted.{MethodCall, perform, perform-append}
use logos_accounts.Scaffold.Threads.{Pc, World, Moved, invoke_step}
use logos_accounts.Scaffold.Threads.Runs.{System, Run, start, begin, turn}
use logos_accounts.Scaffold.Threads.Working.{module_of, Holds, Run-Holds}
use logos_accounts.Scaffold.Threads.Moves.{
  Moves, stamps, sets, finds, misses, installs, looks, gives_up, enters, has_fired, loads,
  no_context, reads_context, no_callback, reads_emit, stores, calls, leaves, locks, unregistered,
  invokes, runs, emits, ends, replies, saves, pushes, advance-Moves,
}

module _ ⦃x : Externals⦄ (json : Json) (wire : Wire) where
  Moves-perform :
      {i : ℕ} {w : World} {pc : Pc} {m : Moved}
      → Moves json wire i w pc m
      → Holds pc (module_of w)
      → module_of m.world ≡ perform json wire m.performed (module_of w)
  unfolding stamp logos_module_install invoke_step dispatch_impl instance_or_default
  Moves-perform stamps a = refl
  Moves-perform sets a = refl
  Moves-perform (finds h) a = refl
  Moves-perform misses a = refl
  Moves-perform installs a = refl
  Moves-perform looks a = refl
  Moves-perform (gives_up h) a = refl
  Moves-perform (enters h) a = refl
  Moves-perform (has_fired h) a = refl
  Moves-perform (loads h) a = refl
  Moves-perform (no_context h) a = refl
  Moves-perform (reads_context h) a = refl
  Moves-perform (no_callback h) a = refl
  Moves-perform reads_emit a = refl
  Moves-perform stores a = refl
  Moves-perform calls a = refl
  Moves-perform leaves a = refl
  Moves-perform (locks h) a = refl
  Moves-perform unregistered a = refl
  Moves-perform (invokes h) a = refl
  Moves-perform (runs {c}) a = ap (perform json wire (c ∷ [])) (sym a)
  Moves-perform emits a = refl
  Moves-perform ends a = refl
  Moves-perform replies a = refl
  Moves-perform saves a = refl
  Moves-perform pushes a = refl

  -- Whatever threads call the entry points, in any interleaving: the module is as the methods that
  -- were performed leave it, one after the other. No result of a method is lost, although each
  -- works on the module as it was read when `INSTANCE` was taken and writes it in a later step, with
  -- steps of other threads in between.
  pub Run-perform :
      {history : List MethodCall} {trace : List Effect} {s : System}
      → Run json wire history trace s
      → instance_or_default s.world.statics.instance_slot
        ≡ perform json wire history (instance_or_default none)
  unfolding initial
  Run-perform start = refl
  Run-perform (begin i call free run) = Run-perform run
  Run-perform (turn {history} {s = s} i m next run) =
      Moves-perform (advance-Moves json wire i (s.pcs i) s.world next) (Run-Holds json wire run i)
      ∙ ap (perform json wire m.performed) (Run-perform run)
      ∙ sym (perform-append json wire history m.performed (instance_or_default none))
