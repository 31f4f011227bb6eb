-- ===== src/Scaffold/Threads/Halts.antt =====
-- A call ends: a thread takes finitely many steps for it.
use logos_accounts.Prelude.{ℕ, Option, String, ◌≡◌, Bool, true, some, List, [], ◌∷◌}
use logos_accounts.Externals.{Externals}
use logos_accounts.Provider.{Json, Event, AccountsModule}
use logos_accounts.Scaffold.Emit.{CStr, Callback, RustModuleContext, Wire}
use logos_accounts.Scaffold.Hosted.{MethodCall}
use logos_accounts.Scaffold.Threads.{
  Next, stop, invoke, Pc, World, Moved, after_ready, invoke_step, advance, idle, stamping, setting,
  checking, installing, looking, entering, loading, reading_context, reading_emit, storing, calling,
  leaving, locking, invoking, running, emitting, replying, saving, pushing,
}
use logos_accounts.Scaffold.Threads.Moves.{
  Moves, stamps, sets, finds, misses, installs, looks, gives_up, enters, has_fired, loads,
  no_context, reads_context, no_callback, reads_emit, stores, calls, leaves, locks, unregistered,
  invokes, runs, emits, ends, replies, saves, pushes, advance-Moves,
}

module _ ⦃x : Externals⦄ (json : Json) (wire : Wire) (i : ℕ) where
  -- Thread `i`, which stands at `pc`, takes finitely many steps, whatever the statics are at each of
  -- them.
  pub data Halts : Pc → Type 0 where
    halts :
        {pc : Pc}
        → ((w : World) (m : Moved) → advance json wire i pc w ≡ some m → Halts m.pc)
        → Halts pc

  by_moves :
      (pc : Pc) → ((w : World) (m : Moved) → Moves json wire i w pc m → Halts m.pc) → Halts pc
  by_moves pc f = halts λ w m h. f w m (advance-Moves json wire i pc w h)

  idle-Halts : Halts idle
  unfolding advance
  idle-Halts = halts λ w m h. absurd (cc)

  pushing-Halts : (name tok : String) → Halts (pushing name tok)
  pushing-Halts name tok = by_moves (pushing name tok) go
    where
      go : (w : World) (m : Moved) → Moves json wire i w (pushing name tok) m → Halts m.pc
      go w m pushes = idle-Halts

  saving-Halts : (name tok : String) → Halts (saving name tok)
  saving-Halts name tok = by_moves (saving name tok) go
    where
      go : (w : World) (m : Moved) → Moves json wire i w (saving name tok) m → Halts m.pc
      go w m saves = pushing-Halts name tok

  replying-Halts : (c : MethodCall) (reply : CStr) → Halts (replying c reply)
  replying-Halts c reply = by_moves (replying c reply) go
    where
      go : (w : World) (m : Moved) → Moves json wire i w (replying c reply) m → Halts m.pc
      go w m replies = idle-Halts

  emitting_step-Halts :
      (c : MethodCall) (reply : CStr) (e : Event) (es : List Event)
      → Halts (emitting c reply es)
      → (w : World) (m : Moved) → Moves json wire i w (emitting c reply (e ∷ es)) m
      → Halts m.pc
  emitting_step-Halts c reply e es rest w m emits = rest

  emitting_end-Halts :
      (c : MethodCall) (reply : CStr) (w : World) (m : Moved)
      → Moves json wire i w (emitting c reply []) m
      → Halts m.pc
  emitting_end-Halts c reply w m ends = replying-Halts c reply

  emitting-Halts : (c : MethodCall) (reply : CStr) (es : List Event) → Halts (emitting c reply es)
  emitting-Halts c reply [] = by_moves (emitting c reply []) (emitting_end-Halts c reply)
  emitting-Halts c reply (e ∷ es) =
      by_moves (emitting c reply (e ∷ es))
        (emitting_step-Halts c reply e es (emitting-Halts c reply es))

  running-Halts : (c : MethodCall) (held : AccountsModule) → Halts (running c held)
  unfolding invoke_step
  running-Halts c held = by_moves (running c held) go
    where
      go : (w : World) (m : Moved) → Moves json wire i w (running c held) m → Halts m.pc
      go w m runs = emitting-Halts c _ _

  invoking-Halts : (c : MethodCall) → Halts (invoking c)
  invoking-Halts c = by_moves (invoking c) go
    where
      go : (w : World) (m : Moved) → Moves json wire i w (invoking c) m → Halts m.pc
      go w m (invokes h) = running-Halts c _

  locking-Halts : (c : MethodCall) → Halts (locking c)
  locking-Halts c = by_moves (locking c) go
    where
      go : (w : World) (m : Moved) → Moves json wire i w (locking c) m → Halts m.pc
      go w m (locks h) = invoking-Halts c
      go w m unregistered = idle-Halts

  after_ready-Halts : (n : Next) → Halts (after_ready n)
  unfolding after_ready
  after_ready-Halts stop = idle-Halts
  after_ready-Halts (invoke c) = locking-Halts c

  leaving-Halts : (n : Next) → Halts (leaving n)
  leaving-Halts n = by_moves (leaving n) go
    where
      go : (w : World) (m : Moved) → Moves json wire i w (leaving n) m → Halts m.pc
      go w m leaves = after_ready-Halts n

  calling-Halts : (ctx : RustModuleContext) (n : Next) → Halts (calling ctx n)
  calling-Halts ctx n = by_moves (calling ctx n) go
    where
      go : (w : World) (m : Moved) → Moves json wire i w (calling ctx n) m → Halts m.pc
      go w m calls = leaving-Halts n

  storing-Halts : (ctx : RustModuleContext) (n : Next) → Halts (storing ctx n)
  storing-Halts ctx n = by_moves (storing ctx n) go
    where
      go : (w : World) (m : Moved) → Moves json wire i w (storing ctx n) m → Halts m.pc
      go w m stores = calling-Halts ctx n

  reading_emit_step-Halts :
      (e : Bool) (ctx : RustModuleContext) (n : Next) (w : World) (m : Moved)
      → Moves json wire i w (reading_emit e ctx n) m
      → Halts m.pc
  reading_emit_step-Halts e ctx n w m (no_callback h) = leaving-Halts n
  reading_emit_step-Halts e ctx n w m reads_emit = storing-Halts ctx n

  reading_emit-Halts :
      (e : Bool) (ctx : RustModuleContext) (n : Next) → Halts (reading_emit e ctx n)
  reading_emit-Halts e ctx n = by_moves (reading_emit e ctx n) (reading_emit_step-Halts e ctx n)

  reading_context-Halts : (e : Bool) (n : Next) → Halts (reading_context e n)
  reading_context-Halts e n = by_moves (reading_context e n) go
    where
      go : (w : World) (m : Moved) → Moves json wire i w (reading_context e n) m → Halts m.pc
      go w m (no_context h) = leaving-Halts n
      go w m (reads_context {ctx = ctx} h) = reading_emit-Halts e ctx n

  loading-Halts : (e : Bool) (n : Next) → Halts (loading e n)
  loading-Halts e n = by_moves (loading e n) go
    where
      go : (w : World) (m : Moved) → Moves json wire i w (loading e n) m → Halts m.pc
      go w m (has_fired h) = leaving-Halts n
      go w m (loads h) = reading_context-Halts e n

  entering-Halts : (e : Bool) (n : Next) → Halts (entering e n)
  entering-Halts e n = by_moves (entering e n) go
    where
      go : (w : World) (m : Moved) → Moves json wire i w (entering e n) m → Halts m.pc
      go w m (enters h) = loading-Halts e n

  looking-Halts : (e : Bool) (n : Next) → Halts (looking e n)
  looking-Halts e n = by_moves (looking e n) go
    where
      go : (w : World) (m : Moved) → Moves json wire i w (looking e n) m → Halts m.pc
      go w m looks = entering-Halts e n
      go w m (gives_up h) = after_ready-Halts n

  installing-Halts : (e : Bool) (n : Next) → Halts (installing e n)
  installing-Halts e n = by_moves (installing e n) go
    where
      go : (w : World) (m : Moved) → Moves json wire i w (installing e n) m → Halts m.pc
      go w m installs = looking-Halts e n

  checking-Halts : (e : Bool) (n : Next) → Halts (checking e n)
  checking-Halts e n = by_moves (checking e n) go
    where
      go : (w : World) (m : Moved) → Moves json wire i w (checking e n) m → Halts m.pc
      go w m (finds h) = looking-Halts e n
      go w m misses = installing-Halts e n

  setting-Halts : (cb : Option Callback) → Halts (setting cb)
  setting-Halts cb = by_moves (setting cb) go
    where
      go : (w : World) (m : Moved) → Moves json wire i w (setting cb) m → Halts m.pc
      go w m sets = checking-Halts true stop

  stamping-Halts : (a b c : CStr) → Halts (stamping a b c)
  stamping-Halts a b c = by_moves (stamping a b c) go
    where
      go : (w : World) (m : Moved) → Moves json wire i w (stamping a b c) m → Halts m.pc
      go w m stamps = checking-Halts true stop

  -- Wherever a thread stands in a call, it takes only finitely many steps more in that call,
  -- whatever other threads make of the statics in between.
  pub advance-Halts : (pc : Pc) → Halts pc
  advance-Halts idle = idle-Halts
  advance-Halts (stamping a b c) = stamping-Halts a b c
  advance-Halts (setting cb) = setting-Halts cb
  advance-Halts (checking e n) = checking-Halts e n
  advance-Halts (installing e n) = installing-Halts e n
  advance-Halts (looking e n) = looking-Halts e n
  advance-Halts (entering e n) = entering-Halts e n
  advance-Halts (loading e n) = loading-Halts e n
  advance-Halts (reading_context e n) = reading_context-Halts e n
  advance-Halts (reading_emit e ctx n) = reading_emit-Halts e ctx n
  advance-Halts (storing ctx n) = storing-Halts ctx n
  advance-Halts (calling ctx n) = calling-Halts ctx n
  advance-Halts (leaving n) = leaving-Halts n
  advance-Halts (locking c) = locking-Halts c
  advance-Halts (invoking c) = invoking-Halts c
  advance-Halts (running c held) = running-Halts c held
  advance-Halts (emitting c reply es) = emitting-Halts c reply es
  advance-Halts (replying c reply) = replying-Halts c reply
  advance-Halts (saving name tok) = saving-Halts name tok
  advance-Halts (pushing name tok) = pushing-Halts name tok
