-- ===== src/Scaffold/Threads/Events.antt =====
-- The events of methods that interleaved threads perform.
use logos_accounts.Prelude.{
  ℕ, String, ◌≡◌, refl, sym, ap, ◌∙◌, Bool, Bool-cases, inl, inr, true, false, Option, none, some,
  List, [], ◌∷◌, ◌++◌, append-nil, append_assoc, ◌==◌, string_eq, Within, nil, taken, missed,
}
use logos_accounts.Externals.{Externals}
use logos_accounts.Provider.{Json, AccountsModule, Event}
use logos_accounts.Dispatch.{dispatch_impl}
use logos_accounts.Scaffold.Emit.{
  CStr, Callback, RustModuleContext, Effect, sent, hook_called, logged, token_saved, Wire, emit,
  emit_event, event_name, event_payload, c_string_or_default,
}
use logos_accounts.Scaffold.{on_context_ready, events_of}
use logos_accounts.Scaffold.Hosted.{MethodCall, perform}
use logos_accounts.Scaffold.Threads.{
  Next, stop, invoke, Pc, World, Moved, goes, after_ready, invoke_step, running, emitting, replying,
}
use logos_accounts.Scaffold.Threads.Runs.{StartsAt, at_end, at_stamp, at_set, at_check, at_save}
use logos_accounts.Scaffold.Threads.Moves.{
  Moves, stamps, sets, finds, misses, installs, looks, gives_up, enters, has_fired, loads,
  no_context, reads_context, no_callback, reads_emit, stores, calls, leaves, locks, unregistered,
  invokes, runs, emits, ends, replies, saves, pushes,
}
use logos_accounts.Scaffold.Threads.Exclusive.{in_registered}

-- The texts that went to the host's callback.
abbrev pub sent_of : List Effect → List (String × String)
sent_of [] = []
sent_of (sent cb name json ∷ es) = (name, json) ∷ sent_of es
sent_of (hook_called ctx ∷ es) = sent_of es
sent_of (logged path ∷ es) = sent_of es
sent_of (token_saved name token ∷ es) = sent_of es

pub sent_of-append : (es fs : List Effect) → sent_of (es ++ fs) ≡ sent_of es ++ sent_of fs
sent_of-append [] fs = refl
sent_of-append (sent cb name json ∷ es) fs = ap (λ ts. (name, json) ∷ ts) (sent_of-append es fs)
sent_of-append (hook_called ctx ∷ es) fs = sent_of-append es fs
sent_of-append (logged path ∷ es) fs = sent_of-append es fs
sent_of-append (token_saved name token ∷ es) fs = sent_of-append es fs

on_context_ready-sent_of : (ctx : RustModuleContext) → sent_of (on_context_ready ctx) ≡ []
unfolding on_context_ready
on_context_ready-sent_of ctx = elim (Bool-cases (ctx.instance_persistence_path == "")) [
  | inl empty ↦ rw empty refl
  | inr path ↦ rw path refl
]

-- The texts of an event.
abbrev pub texts_of : Wire → Event → String × String
texts_of wire e =
    (c_string_or_default (event_name e), c_string_or_default (wire.array_text (event_payload e)))

pub emit-Within :
    (wire : Wire) (cb : Option Callback) (e : Event)
    → Within (sent_of (emit wire cb e)) (texts_of wire e ∷ [])
unfolding emit emit_event
emit-Within wire none e = missed nil
emit-Within wire (some cb) e = taken nil

module _ ⦃x : Externals⦄ where
  abbrev pub is_emitting : Pc → Bool
  is_emitting (emitting c reply es) = true
  is_emitting _ = false

  abbrev pub left_at : Pc → List Event
  left_at (emitting c reply es) = es
  left_at _ = []

  after_ready-quiet : (n : Next) → is_emitting (after_ready n) ≡ false
  unfolding after_ready
  after_ready-quiet stop = refl
  after_ready-quiet (invoke c) = refl

  pub StartsAt-quiet : {pc : Pc} → StartsAt pc → is_emitting pc ≡ false
  StartsAt-quiet at_end = refl
  StartsAt-quiet at_stamp = refl
  StartsAt-quiet at_set = refl
  StartsAt-quiet at_check = refl
  StartsAt-quiet at_save = refl

  pub emitting-in_registered : (pc : Pc) → is_emitting pc ≡ true → in_registered pc ≡ true
  emitting-in_registered (emitting c reply es) h = refl
  emitting-in_registered _ h = absurd (cc)

  module _ (json : Json) (wire : Wire) where
    -- The events of methods, performed one after the other.
    abbrev pub produced : List MethodCall → AccountsModule → List Event
    produced [] m = []
    produced (c ∷ cs) m =
        let out = dispatch_impl json c.surroundings c.name c.args (some m) in
        events_of out.0 ++ produced cs out.1

    pub produced-append :
        (cs : List MethodCall) (c : MethodCall) (m : AccountsModule)
        → produced (cs ++ c ∷ []) m
          ≡ produced cs m
            ++ events_of
                (dispatch_impl json c.surroundings c.name c.args (some (perform json wire cs m))).0
    produced-append [] c m = append-nil _
    produced-append (d ∷ cs) c m =
        let out = dispatch_impl json d.surroundings d.name d.args (some m) in
        ap (λ es. events_of out.0 ++ es) (produced-append cs c out.1)
        ∙ sym (append_assoc (events_of out.0) (produced cs out.1) _)

    -- The steps by what they mean for events.
    pub data EventKind (i : ℕ) (w : World) : Pc → Moved → Type 0 where
      quiet :
          {pc : Pc} {m : Moved}
          → is_emitting pc ≡ false
          → is_emitting m.pc ≡ false
          → m.performed ≡ []
          → sent_of m.effects ≡ []
          → EventKind i w pc m
      invoked :
          {c : MethodCall} {held : AccountsModule}
          → EventKind i w (running c held) (invoke_step json wire c held w)
      emitted :
          {c : MethodCall} {reply : CStr} {event : Event} {es : List Event}
          → EventKind i w (emitting c reply (event ∷ es)) (record (goes (emitting c reply es) w) {
            effects = emit wire w.statics.callback event;
          })
      ended :
          {c : MethodCall} {reply : CStr}
          → EventKind i w
              (emitting c reply [])
              (goes (replying c reply) (record w { instance_by = none }))

    pub Moves-EventKind :
        {i : ℕ} {w : World} {pc : Pc} {m : Moved} → Moves json wire i w pc m → EventKind i w pc m
    Moves-EventKind stamps = quiet refl refl refl refl
    Moves-EventKind sets = quiet refl refl refl refl
    Moves-EventKind (finds h) = quiet refl refl refl refl
    Moves-EventKind misses = quiet refl refl refl refl
    Moves-EventKind installs = quiet refl refl refl refl
    Moves-EventKind looks = quiet refl refl refl refl
    Moves-EventKind (gives_up {n = n} h) = quiet refl (after_ready-quiet n) refl refl
    Moves-EventKind (enters h) = quiet refl refl refl refl
    Moves-EventKind (has_fired h) = quiet refl refl refl refl
    Moves-EventKind (loads h) = quiet refl refl refl refl
    Moves-EventKind (no_context h) = quiet refl refl refl refl
    Moves-EventKind (reads_context h) = quiet refl refl refl refl
    Moves-EventKind (no_callback h) = quiet refl refl refl refl
    Moves-EventKind reads_emit = quiet refl refl refl refl
    Moves-EventKind stores = quiet refl refl refl refl
    Moves-EventKind (calls {ctx = ctx}) = quiet refl refl refl (on_context_ready-sent_of ctx)
    Moves-EventKind (leaves {n = n}) = quiet refl (after_ready-quiet n) refl refl
    Moves-EventKind (locks h) = quiet refl refl refl refl
    Moves-EventKind unregistered = quiet refl refl refl refl
    Moves-EventKind (invokes h) = quiet refl refl refl refl
    Moves-EventKind runs = invoked
    Moves-EventKind emits = emitted
    Moves-EventKind ends = ended
    Moves-EventKind replies = quiet refl refl refl refl
    Moves-EventKind saves = quiet refl refl refl refl
    Moves-EventKind pushes = quiet refl refl refl refl
