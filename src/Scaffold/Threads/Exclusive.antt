-- ===== src/Scaffold/Threads/Exclusive.antt =====
-- The locks of `REGISTERED` and `INSTANCE`: who is inside holds the lock.
use logos_accounts.Prelude.{ℕ, ◌≡◌, refl, ap, Bool, true, false, List, nat_eq}
use logos_accounts.Externals.{Externals}
use logos_accounts.Provider.{Json}
use logos_accounts.Scaffold.Emit.{Effect, Wire}
use logos_accounts.Scaffold.Hosted.{MethodCall}
use logos_accounts.Scaffold.Threads.{
  stop, invoke, Pc, World, Moved, after_ready, invoke_step, loading, reading_context, reading_emit,
  storing, calling, leaving, invoking, running, emitting, replying,
}
use logos_accounts.Scaffold.Threads.Locks.{LockMove, keeps, takes, drops, Owned, LockMove-Owned}
use logos_accounts.Scaffold.Threads.Runs.{
  System, Run, start, begin, turn, start_call, StartsAt, at_end, at_stamp, at_set, at_check,
  at_save, start_call-StartsAt,
}
use logos_accounts.Scaffold.Threads.Moves.{
  Moves, stamps, sets, finds, misses, installs, looks, gives_up, enters, has_fired, loads,
  no_context, reads_context, no_callback, reads_emit, stores, calls, leaves, locks, unregistered,
  invokes, runs, emits, ends, replies, saves, pushes, advance-Moves,
}

module _ ⦃x : Externals⦄ where
  -- In `ensure_impl` or in a method, with the lock of `INSTANCE`.
  abbrev pub in_instance : Pc → Bool
  in_instance (loading e n) = true
  in_instance (reading_context e n) = true
  in_instance (reading_emit e ctx n) = true
  in_instance (storing ctx n) = true
  in_instance (calling ctx n) = true
  in_instance (leaving n) = true
  in_instance (running c m) = true
  in_instance (emitting c reply es) = true
  in_instance _ = false

  -- In a dispatch, with the lock of `REGISTERED`.
  abbrev pub in_registered : Pc → Bool
  in_registered (invoking c) = true
  in_registered (running c m) = true
  in_registered (emitting c reply es) = true
  in_registered (replying c reply) = true
  in_registered _ = false

  -- Both locks are held by the one thread that is inside.
  pub record IsExclusive (s : System) : Type 0 where
    pub of_instance : Owned in_instance s.world.instance_by s.pcs
    pub of_registered : Owned in_registered s.world.registered_by s.pcs

  module _ (json : Json) (wire : Wire) where
    Moves-instance :
        {i : ℕ} {w : World} {pc : Pc} {m : Moved}
        → Moves json wire i w pc m
        → LockMove i w.instance_by (in_instance pc) m.world.instance_by (in_instance m.pc)
    unfolding after_ready invoke_step
    Moves-instance stamps = keeps
    Moves-instance sets = keeps
    Moves-instance (finds h) = keeps
    Moves-instance misses = keeps
    Moves-instance installs = keeps
    Moves-instance looks = keeps
    Moves-instance (gives_up {n = stop} h) = keeps
    Moves-instance (gives_up {n = invoke c} h) = keeps
    Moves-instance (enters h) = rw h takes
    Moves-instance (has_fired h) = keeps
    Moves-instance (loads h) = keeps
    Moves-instance (no_context h) = keeps
    Moves-instance (reads_context h) = keeps
    Moves-instance (no_callback h) = keeps
    Moves-instance reads_emit = keeps
    Moves-instance stores = keeps
    Moves-instance calls = keeps
    Moves-instance (leaves {n = stop}) = drops
    Moves-instance (leaves {n = invoke c}) = drops
    Moves-instance (locks h) = keeps
    Moves-instance unregistered = keeps
    Moves-instance (invokes h) = rw h takes
    Moves-instance runs = keeps
    Moves-instance emits = keeps
    Moves-instance ends = drops
    Moves-instance replies = keeps
    Moves-instance saves = keeps
    Moves-instance pushes = keeps

    Moves-registered :
        {i : ℕ} {w : World} {pc : Pc} {m : Moved}
        → Moves json wire i w pc m
        → LockMove i w.registered_by (in_registered pc) m.world.registered_by (in_registered m.pc)
    unfolding after_ready invoke_step
    Moves-registered stamps = keeps
    Moves-registered sets = keeps
    Moves-registered (finds h) = keeps
    Moves-registered misses = keeps
    Moves-registered installs = keeps
    Moves-registered looks = keeps
    Moves-registered (gives_up {n = stop} h) = keeps
    Moves-registered (gives_up {n = invoke c} h) = keeps
    Moves-registered (enters h) = keeps
    Moves-registered (has_fired h) = keeps
    Moves-registered (loads h) = keeps
    Moves-registered (no_context h) = keeps
    Moves-registered (reads_context h) = keeps
    Moves-registered (no_callback h) = keeps
    Moves-registered reads_emit = keeps
    Moves-registered stores = keeps
    Moves-registered calls = keeps
    Moves-registered (leaves {n = stop}) = keeps
    Moves-registered (leaves {n = invoke c}) = keeps
    Moves-registered (locks h) = rw h takes
    Moves-registered unregistered = keeps
    Moves-registered (invokes h) = keeps
    Moves-registered runs = keeps
    Moves-registered emits = keeps
    Moves-registered ends = keeps
    Moves-registered replies = drops
    Moves-registered saves = keeps
    Moves-registered pushes = keeps

    -- A call starts outside of both locks.
    abbrev IsOutside : Pc → Type 0
    IsOutside pc = (in_instance pc ≡ false) × (in_registered pc ≡ false)

    StartsAt-IsOutside : {pc : Pc} → StartsAt pc → IsOutside pc
    StartsAt-IsOutside at_end = (refl, refl)
    StartsAt-IsOutside at_stamp = (refl, refl)
    StartsAt-IsOutside at_set = (refl, refl)
    StartsAt-IsOutside at_check = (refl, refl)
    StartsAt-IsOutside at_save = (refl, refl)

    pub Run-IsExclusive :
        {history : List MethodCall} {trace : List Effect} {s : System}
        → Run json wire history trace s
        → IsExclusive s
    Run-IsExclusive start = record {
      of_instance = λ j. (λ h. absurd (cc), λ h. absurd (cc));
      of_registered = λ j. (λ h. absurd (cc), λ h. absurd (cc));
    }
    Run-IsExclusive (begin {s = s} i call free run) =
        let v = Run-IsExclusive run in
        let out = StartsAt-IsOutside (start_call-StartsAt wire call) in
        record {
          of_instance =
              LockMove-Owned in_instance (start_call wire call) s.pcs keeps (ap in_instance free)
                out.0 v.of_instance;
          of_registered =
              LockMove-Owned in_registered (start_call wire call) s.pcs keeps
                (ap in_registered free) out.1 v.of_registered;
        }
    Run-IsExclusive (turn {s = s} i m next run) =
        let v = Run-IsExclusive run in
        let move = advance-Moves json wire i (s.pcs i) s.world next in
        record {
          of_instance =
              LockMove-Owned in_instance m.pc s.pcs (Moves-instance move) refl refl v.of_instance;
          of_registered =
              LockMove-Owned in_registered m.pc s.pcs (Moves-registered move) refl refl
                v.of_registered;
        }
