-- ===== src/Scaffold/Threads.antt =====
-- rust-lib/generated/provider_gen.rs: the entry points of the C interface called from several
-- threads. A thread goes from one use of a shared static to the next; `REGISTERED` is held during a
-- dispatch and `INSTANCE` during `ensure_impl` and a method, and whoever needs them waits. `CONTEXT`,
-- `EMIT` and `TOKENS` are held for one step. A method reads the module in one step and writes it in
-- another.
pub mod Runs
pub mod Moves
pub mod Working
pub mod Serial
pub mod Replies
pub mod Events
pub mod Delivered
pub mod Heard
pub mod Locks
pub mod Exclusive
pub mod Hook
pub mod Once
pub mod Fired
pub mod Progress
pub mod Halts
pub mod Completes
use logos_accounts.Prelude.{
  ℕ, String, ◌≡◌, Bool, true, false, Option, none, some, List, [], ◌∷◌, ◌++◌, ◌==◌, nat_eq,
  if◌then◌else◌,
}
use logos_accounts.Externals.{Externals}
use logos_accounts.Provider.{Json, Event, AccountsModule}
use logos_accounts.Dispatch.{Arg, Surroundings, dispatch_impl, instance_or_default}
use logos_accounts.Scaffold.Emit.{
  CStr, Callback, RustModuleContext, Effect, token_saved, Wire, emit,
}
use logos_accounts.Scaffold.{
  Statics, initial, logos_module_install, with_instance, is_none, on_context_ready, reply_text,
  events_of, stamp, read_args, HostCall, dispatch, set_context, set_emit_callback, accept_token,
  get_methods, get_protocol_version, string_free,
}
use logos_accounts.Scaffold.Hosted.{MethodCall}

abbrev pub put {ℓ} : {A : Type ℓ} → ℕ → A → (ℕ → A) → ℕ → A
put i a f j = if i == j then a else f j

module _ ⦃x : Externals⦄ where
  -- What a thread does after `ensure_ready`: nothing, or the dispatch of a method.
  pub data Next : Type 0 where
    stop : Next
    invoke : MethodCall → Next

  -- Where a thread stands: before the use of a static that it does next.
  pub data Pc : Type 0 where
    idle : Pc
    -- `logos_module_set_context`, `logos_module_set_emit_callback`
    stamping : CStr → CStr → CStr → Pc
    setting : Option Callback → Pc
    -- `ensure_ready`: the test of `REGISTERED`, the hook's `install`, the look for `ensure`
    checking : Bool → Next → Pc
    installing : Bool → Next → Pc
    looking : Bool → Next → Pc
    -- `ensure_impl`: the lock of `INSTANCE`, and then, with the lock, each use of a static
    entering : Bool → Next → Pc
    loading : Bool → Next → Pc
    reading_context : Bool → Next → Pc
    reading_emit : Bool → RustModuleContext → Next → Pc
    storing : RustModuleContext → Next → Pc
    calling : RustModuleContext → Next → Pc
    leaving : Next → Pc
    -- `logos_module_dispatch`: the lock of `REGISTERED`, that of `INSTANCE`, where the module is
    -- read, the method on what was read, whose result is written, its events, the end of both locks
    locking : MethodCall → Pc
    invoking : MethodCall → Pc
    running : MethodCall → AccountsModule → Pc
    emitting : MethodCall → CStr → List Event → Pc
    replying : MethodCall → CStr → Pc
    -- `logos_module_accept_token`
    saving : String → String → Pc
    pushing : String → String → Pc

  -- The statics, and which thread holds the locks of `REGISTERED` and `INSTANCE`.
  pub record World : Type 0 where
    pub statics : Statics
    pub registered_by : Option ℕ
    pub instance_by : Option ℕ

  -- A step of a thread: where it stands then, what it leaves of the statics and what it does
  -- outside of them, and the method that it performs.
  pub record Moved : Type 0 where
    pub pc : Pc
    pub world : World
    pub effects : List Effect
    pub performed : List MethodCall

  abbrev pub goes : Pc → World → Moved
  goes pc w = record { pc = pc; world = w; effects = []; performed = [] }

  abbrev pub with_statics : Statics → World → World
  with_statics s w = record w { statics = s }

  unfoldable pub after_ready : Next → Pc
  after_ready stop = idle
  after_ready (invoke c) = locking c

  -- `MutexGuard`: the step is possible once the lock is free.
  unfoldable pub when_free : Option ℕ → Moved → Option Moved
  when_free none m = some m
  when_free (some owner) m = none

  -- The end of the reads of `ensure_impl`.
  unfoldable pub hook_step : Bool → RustModuleContext → Next → Option Callback → Pc
  hook_step require_emit ctx next callback =
      if require_emit
      then if is_none callback then leaving next else storing ctx next
      else storing ctx next

  unfoldable pub context_step : Bool → Next → Option RustModuleContext → Pc
  context_step require_emit next none = leaving next
  context_step require_emit next (some ctx) = reading_emit require_emit ctx next

  module _ (json : Json) (wire : Wire) where
    -- The dispatch of a method on the module that was read when `INSTANCE` was taken. What it makes
    -- of the module is written to the slot, whatever the slot holds by then.
    unfoldable pub invoke_step : MethodCall → AccountsModule → World → Moved
    unfolding dispatch_impl reply_text
    invoke_step c m w =
        let done = dispatch_impl json c.surroundings c.name c.args (some m) in
        record {
          pc = emitting c (reply_text wire done.0) (events_of done.0);
          world = with_statics (record w.statics { instance_slot = some done.1 }) w;
          effects = [];
          performed = c ∷ [];
        }

    -- The next step of thread `i`, if it stands at `pc`: none where it waits or has no call.
    unfoldable pub advance : ℕ → Pc → World → Option Moved
    unfolding after_ready when_free hook_step context_step invoke_step logos_module_install
        on_context_ready emit stamp
    advance i idle w = none
    advance i (stamping a b c) w =
        some (goes (checking true stop) (with_statics (stamp a b c w.statics) w))
    advance i (setting cb) w =
        some (goes (checking true stop) (with_statics (record w.statics { callback = cb }) w))
    advance i (checking e n) w =
        when_free w.registered_by
          (goes (if w.statics.registered then looking e n else installing e n) w)
    advance i (installing e n) w =
        when_free w.registered_by
          (goes (looking e n) (with_statics (logos_module_install w.statics) w))
    advance i (looking e n) w =
        when_free w.registered_by
          (goes (if w.statics.registered then entering e n else after_ready n) w)
    advance i (entering e n) w =
        when_free w.instance_by (
          goes (loading e n) (record w { statics = with_instance w.statics; instance_by = some i }))
    advance i (loading e n) w =
        some (goes (if w.statics.hook_fired then leaving n else reading_context e n) w)
    advance i (reading_context e n) w = some (goes (context_step e n w.statics.context) w)
    advance i (reading_emit e ctx n) w = some (goes (hook_step e ctx n w.statics.callback) w)
    advance i (storing ctx n) w =
        some (goes (calling ctx n) (with_statics (record w.statics { hook_fired = true }) w))
    advance i (calling ctx n) w =
        some (record (goes (leaving n) w) { effects = on_context_ready ctx })
    advance i (leaving n) w = some (goes (after_ready n) (record w { instance_by = none }))
    advance i (locking c) w = when_free w.registered_by (
        if w.statics.registered
        then goes (invoking c) (record w { registered_by = some i })
        else goes idle w)
    advance i (invoking c) w = when_free w.instance_by (
        goes (running c (instance_or_default w.statics.instance_slot))
          (record w { statics = with_instance w.statics; instance_by = some i }))
    advance i (running c m) w = some (invoke_step c m w)
    advance i (emitting c reply (e ∷ es)) w =
        some (record (goes (emitting c reply es) w) { effects = emit wire w.statics.callback e })
    advance i (emitting c reply []) w =
        some (goes (replying c reply) (record w { instance_by = none }))
    advance i (replying c reply) w = some (goes idle (record w { registered_by = none }))
    advance i (saving name tok) w =
        some (record (goes (pushing name tok) w) { effects = token_saved name tok ∷ [] })
    advance i (pushing name tok) w =
        let s = w.statics in
        some (goes idle (with_statics (record s { tokens = s.tokens ++ (name, tok) ∷ [] }) w))
