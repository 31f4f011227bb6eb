-- ===== src/Scaffold/Threads/Moves.antt =====
-- The steps of a thread, one by one.
use logos_accounts.Prelude.{
  ℕ, String, ◌≡◌, refl, subst, Bool, if_cases, true, false, Option, none, some, List, [], ◌∷◌, ◌++◌,
}
use logos_accounts.Externals.{Externals}
use logos_accounts.Provider.{Json, Event, AccountsModule}
use logos_accounts.Dispatch.{instance_or_default}
use logos_accounts.Scaffold.Emit.{CStr, Callback, RustModuleContext, token_saved, Wire, emit}
use logos_accounts.Scaffold.{logos_module_install, with_instance, on_context_ready, stamp}
use logos_accounts.Scaffold.Hosted.{MethodCall}
use logos_accounts.Scaffold.Threads.{
  Next, stop, Pc, World, Moved, goes, with_statics, after_ready, when_free, hook_step, context_step,
  invoke_step, advance, idle, stamping, setting, checking, installing, looking, entering, loading,
  reading_context, reading_emit, storing, calling, leaving, locking, invoking, running, emitting,
  replying, saving, pushing,
}

module _ ⦃x : Externals⦄ (json : Json) (wire : Wire) where
  -- What `advance` does at each place, with what it found there.
  pub data Moves (i : ℕ) (w : World) : Pc → Moved → Type 0 where
    stamps :
        {a b c : CStr}
        → Moves i w
            (stamping a b c)
            (goes (checking true stop) (with_statics (stamp a b c w.statics) w))
    sets :
        {cb : Option Callback}
        → Moves i w
            (setting cb)
            (goes (checking true stop) (with_statics (record w.statics { callback = cb }) w))
    finds :
        {e : Bool} {n : Next}
        → w.statics.registered ≡ true
        → Moves i w (checking e n) (goes (looking e n) w)
    misses : {e : Bool} {n : Next} → Moves i w (checking e n) (goes (installing e n) w)
    installs :
        {e : Bool} {n : Next}
        → Moves i w
            (installing e n)
            (goes (looking e n) (with_statics (logos_module_install w.statics) w))
    looks : {e : Bool} {n : Next} → Moves i w (looking e n) (goes (entering e n) w)
    gives_up :
        {e : Bool} {n : Next}
        → w.statics.registered ≡ false
        → Moves i w (looking e n) (goes (after_ready n) w)
    enters :
        {e : Bool} {n : Next}
        → w.instance_by ≡ none
        → Moves i w (entering e n) (
            goes
              (loading e n)
              (record w { statics = with_instance w.statics; instance_by = some i }))
    has_fired :
        {e : Bool} {n : Next}
        → w.statics.hook_fired ≡ true
        → Moves i w (loading e n) (goes (leaving n) w)
    loads :
        {e : Bool} {n : Next}
        → w.statics.hook_fired ≡ false
        → Moves i w (loading e n) (goes (reading_context e n) w)
    no_context :
        {e : Bool} {n : Next}
        → w.statics.context ≡ none
        → Moves i w (reading_context e n) (goes (leaving n) w)
    reads_context :
        {e : Bool} {ctx : RustModuleContext} {n : Next}
        → w.statics.context ≡ some ctx
        → Moves i w (reading_context e n) (goes (reading_emit e ctx n) w)
    no_callback :
        {ctx : RustModuleContext} {n : Next}
        → w.statics.callback ≡ none
        → Moves i w (reading_emit true ctx n) (goes (leaving n) w)
    reads_emit :
        {e : Bool} {ctx : RustModuleContext} {n : Next}
        → Moves i w (reading_emit e ctx n) (goes (storing ctx n) w)
    stores :
        {ctx : RustModuleContext} {n : Next}
        → Moves i w
            (storing ctx n)
            (goes (calling ctx n) (with_statics (record w.statics { hook_fired = true }) w))
    calls :
        {ctx : RustModuleContext} {n : Next}
        → Moves i w (calling ctx n) (record (goes (leaving n) w) { effects = on_context_ready ctx })
    leaves :
        {n : Next} → Moves i w (leaving n) (goes (after_ready n) (record w { instance_by = none }))
    locks :
        {c : MethodCall}
        → w.registered_by ≡ none
        → Moves i w (locking c) (goes (invoking c) (record w { registered_by = some i }))
    unregistered : {c : MethodCall} → Moves i w (locking c) (goes idle w)
    invokes :
        {c : MethodCall}
        → w.instance_by ≡ none
        → Moves i w (invoking c) (
            goes
              (running c (instance_or_default w.statics.instance_slot))
              (record w { statics = with_instance w.statics; instance_by = some i }))
    runs :
        {c : MethodCall} {m : AccountsModule}
        → Moves i w (running c m) (invoke_step json wire c m w)
    emits :
        {c : MethodCall} {reply : CStr} {event : Event} {es : List Event}
        → Moves i w
            (emitting c reply (event ∷ es))
            (record (goes (emitting c reply es) w) { effects = emit wire w.statics.callback event })
    ends :
        {c : MethodCall} {reply : CStr}
        → Moves i w
            (emitting c reply [])
            (goes (replying c reply) (record w { instance_by = none }))
    replies :
        {c : MethodCall} {reply : CStr}
        → Moves i w (replying c reply) (goes idle (record w { registered_by = none }))
    saves :
        {name tok : String}
        → Moves i w
            (saving name tok)
            (record (goes (pushing name tok) w) { effects = token_saved name tok ∷ [] })
    pushes :
        {name tok : String}
        → Moves i w (pushing name tok) (
            goes idle
              (with_statics (record w.statics { tokens = w.statics.tokens ++ (name, tok) ∷ [] }) w))

  when_free-some :
      (owner : Option ℕ) {m m' : Moved} → when_free owner m ≡ some m' → (owner ≡ none) × (m ≡ m')
  unfolding when_free
  when_free-some none h = (refl, (cc))
  when_free-some (some o) h = absurd (cc)

  some-injective : {m m' : Moved} → some m ≡ some m' → m ≡ m'
  some-injective h = cc

  context_step-Moves :
      (i : ℕ) (w : World) (e : Bool) (n : Next) (context : Option RustModuleContext)
      → w.statics.context ≡ context
      → Moves i w (reading_context e n) (goes (context_step e n context) w)
  unfolding context_step
  context_step-Moves i w e n none h = no_context h
  context_step-Moves i w e n (some ctx) h = reads_context h

  hook_step-Moves :
      (i : ℕ) (w : World) (e : Bool) (ctx : RustModuleContext) (n : Next)
      (callback : Option Callback)
      → w.statics.callback ≡ callback
      → Moves i w (reading_emit e ctx n) (goes (hook_step e ctx n callback) w)
  unfolding hook_step
  hook_step-Moves i w true ctx n none h = no_callback h
  hook_step-Moves i w true ctx n (some cb) h = reads_emit
  hook_step-Moves i w false ctx n callback h = reads_emit

  pub advance-Moves :
      (i : ℕ) (pc : Pc) (w : World) {m : Moved} → advance json wire i pc w ≡ some m → Moves i w pc m
  unfolding advance
  advance-Moves i idle w h = absurd (cc)
  advance-Moves i (stamping a b c) w h = subst (Moves i w _) (some-injective h) stamps
  advance-Moves i (setting cb) w h = subst (Moves i w _) (some-injective h) sets
  advance-Moves i (checking e n) w h =
      let (f, g) = when_free-some w.registered_by h in
      subst (Moves i w _) g (
        if_cases (λ q. Moves i w (checking e n) (goes q w)) w.statics.registered finds
          λ absent. misses)
  advance-Moves i (installing e n) w h =
      let (f, g) = when_free-some w.registered_by h in subst (Moves i w _) g installs
  advance-Moves i (looking e n) w h =
      let (f, g) = when_free-some w.registered_by h in
      subst (Moves i w _) g (
        if_cases (λ q. Moves i w (looking e n) (goes q w)) w.statics.registered (λ there. looks)
          gives_up)
  advance-Moves i (entering e n) w h =
      let (f, g) = when_free-some w.instance_by h in subst (Moves i w _) g (enters f)
  advance-Moves i (loading e n) w h =
      subst (Moves i w _) (some-injective h)
        (if_cases (λ q. Moves i w (loading e n) (goes q w)) w.statics.hook_fired has_fired loads)
  advance-Moves i (reading_context e n) w h =
      subst (Moves i w _) (some-injective h) (context_step-Moves i w e n w.statics.context refl)
  advance-Moves i (reading_emit true ctx n) w h =
      subst (Moves i w _) (some-injective h)
        (hook_step-Moves i w true ctx n w.statics.callback refl)
  advance-Moves i (reading_emit false ctx n) w h =
      subst (Moves i w _) (some-injective h)
        (hook_step-Moves i w false ctx n w.statics.callback refl)
  advance-Moves i (storing ctx n) w h = subst (Moves i w _) (some-injective h) stores
  advance-Moves i (calling ctx n) w h = subst (Moves i w _) (some-injective h) calls
  advance-Moves i (leaving n) w h = subst (Moves i w _) (some-injective h) leaves
  advance-Moves i (locking c) w h =
      let (f, g) = when_free-some w.registered_by h in
      subst (Moves i w _) g (
        if_cases (Moves i w (locking c)) w.statics.registered (λ there. locks f)
          λ absent. unregistered)
  advance-Moves i (invoking c) w h =
      let (f, g) = when_free-some w.instance_by h in subst (Moves i w _) g (invokes f)
  advance-Moves i (running c m) w h = subst (Moves i w _) (some-injective h) runs
  advance-Moves i (emitting c reply (e ∷ es)) w h = subst (Moves i w _) (some-injective h) emits
  advance-Moves i (emitting c reply []) w h = subst (Moves i w _) (some-injective h) ends
  advance-Moves i (replying c reply) w h = subst (Moves i w _) (some-injective h) replies
  advance-Moves i (saving name tok) w h = subst (Moves i w _) (some-injective h) saves
  advance-Moves i (pushing name tok) w h = subst (Moves i w _) (some-injective h) pushes
