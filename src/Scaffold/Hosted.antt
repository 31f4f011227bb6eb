-- ===== src/Scaffold/Hosted.antt =====
-- The host's calls and the module: which method calls they stand for, and which modules they lead to.
use logos_accounts.Prelude.{
  String, ◌≡◌, refl, sym, ◌∙◌, Bool, Bool-cases, inl, inr, true, false, Option, none, some, List,
  [], ◌∷◌, ◌++◌,
}
use logos_accounts.Externals.{Externals}
use logos_accounts.Externals.Laws.{AppendLaws, VladLaws}
use logos_accounts.Provider.{Json, AccountsModule}
use logos_accounts.Provider.Held.{HoldsSound}
use logos_accounts.Dispatch.{Arg, Surroundings, dispatch_impl, instance_or_default}
use logos_accounts.Dispatch.Sessions as Methods
use logos_accounts.Dispatch.Sessions.{Reachable, Reachable-HoldsSound}
use logos_accounts.Scaffold.Emit.{CStr, Effect, Wire}
use logos_accounts.Scaffold.{
  Statics, initial, HostCall, dispatch, set_context, set_emit_callback, accept_token, get_methods,
  get_protocol_version, string_free, enter, ensure_ready, stamp, logos_module_dispatch,
  dispatch_ready, dispatch_registered, answered, read_args, logos_module_set_context,
  logos_module_set_emit_callback, logos_module_accept_token,
}
use logos_accounts.Scaffold.Ready.{ensure_ready-IsPrepared}
use logos_accounts.Scaffold.Sessions.{Session, start, step}

module _ ⦃x : Externals⦄ where
  -- A call of a method, with its arguments.
  pub record MethodCall : Type 0 where
    pub surroundings : Surroundings
    pub name : String
    pub args : List Arg

module _ ⦃x : Externals⦄ (json : Json) (wire : Wire) where
  -- The methods see an instance only through what it stands for.
  pub dispatch_impl-instance :
      (w : Surroundings) (name : String) (args : List Arg) (slot slot' : Option AccountsModule)
      → instance_or_default slot ≡ instance_or_default slot'
      → dispatch_impl json w name args slot ≡ dispatch_impl json w name args slot'
  unfolding dispatch_impl
  dispatch_impl-instance w name args slot slot' same = rw same refl

  -- The module behind the statics is one that calls of methods lead to.
  pub record IsReached (s : Statics) : Type 0 where
    pub slot : Option AccountsModule
    pub reachable : Reachable json slot
    pub same : instance_or_default slot ≡ instance_or_default s.instance_slot

  IsReached-same :
      (s s' : Statics)
      → instance_or_default s'.instance_slot ≡ instance_or_default s.instance_slot
      → IsReached s
      → IsReached s'
  IsReached-same s s' kept r = record {
    slot = r.slot;
    reachable = r.reachable;
    same = r.same ∙ sym kept;
  }

  ensure_ready-same :
      (require_emit : Bool) (s : Statics)
      → instance_or_default (ensure_ready require_emit s).1.instance_slot
        ≡ instance_or_default s.instance_slot
  unfolding instance_or_default
  ensure_ready-same require_emit s = rw (ensure_ready-IsPrepared require_emit s).instance_slot refl

  dispatch_registered-IsReached :
      (w : Surroundings) (name : String) (args : List Arg) (s : Statics)
      → IsReached s
      → IsReached (dispatch_registered json wire w name args s).2
  unfolding dispatch_registered answered
  dispatch_registered-IsReached w name args s r = elim (Bool-cases s.registered) [
    | inr missing ↦ rw missing (IsReached-same s _ refl r)
    | inl there ↦ rw there (record {
      slot = some (dispatch_impl json w name args r.slot).1;
      reachable = Methods.step w name args r.reachable;
      same = rw (dispatch_impl-instance w name args r.slot s.instance_slot r.same) refl;
    })
  ]

  dispatch_ready-IsReached :
      (w : Surroundings) (name : String) (args : Option (List Arg)) (s : Statics)
      → IsReached s
      → IsReached (dispatch_ready json wire w name args s).2
  unfolding dispatch_ready
  dispatch_ready-IsReached w name none s r = r
  dispatch_ready-IsReached w name (some args) s r =
      dispatch_registered-IsReached w name args (ensure_ready false s).1
        (IsReached-same s _ (ensure_ready-same false s) r)

  enter-IsReached :
      (call : HostCall) (s : Statics) → IsReached s → IsReached (enter json wire call s).1
  unfolding enter logos_module_dispatch logos_module_set_context logos_module_set_emit_callback
      logos_module_accept_token stamp
  enter-IsReached (dispatch w none args_json) s r = r
  enter-IsReached (dispatch w (some name) args_json) s r =
      dispatch_ready-IsReached w name (read_args wire args_json) s r
  enter-IsReached (set_context a b c) s r =
      IsReached-same s _ (ensure_ready-same true (stamp a b c s)) r
  enter-IsReached (set_emit_callback cb) s r =
      IsReached-same s _ (ensure_ready-same true (record s { callback = cb })) r
  enter-IsReached (accept_token none token) s r = r
  enter-IsReached (accept_token (some name) none) s r = r
  enter-IsReached (accept_token (some name) (some tok)) s r = IsReached-same s _ refl r
  enter-IsReached get_methods s r = r
  enter-IsReached get_protocol_version s r = r
  enter-IsReached (string_free text) s r = r

  -- After any calls of the host.
  pub Session-IsReached :
      {trace : List Effect} {s : Statics} → Session json wire trace s → IsReached s
  unfolding initial
  Session-IsReached start = record { slot = none; reachable = Methods.start; same = refl }
  Session-IsReached (step {trace} {s} call session) =
      enter-IsReached call s (Session-IsReached session)

  -- After any calls of the host, in any order, every account that the module holds has a verified
  -- log, stands under the hash of its log's VLAD, and has only challenges that were assembled on
  -- its current log. This rests on the laws of the append and on VLADs whose text decodes.
  pub Session-HoldsSound :
      AppendLaws
      → VladLaws
      → {trace : List Effect} {s : Statics} → Session json wire trace s
      → HoldsSound (instance_or_default s.instance_slot)
  Session-HoldsSound appends vlads session =
      let r = Session-IsReached session in
      rw (← r.same) (Reachable-HoldsSound json appends vlads r.reachable)

  abbrev call_of : Surroundings → CStr → Option (List Arg) → List MethodCall
  call_of w none args = []
  call_of w (some name) none = []
  call_of w (some name) (some args) = record { surroundings = w; name = name; args = args } ∷ []

  -- The method call that a call of the host stands for: one if it is a dispatch with a name and
  -- readable arguments, and otherwise none.
  abbrev method_call : HostCall → List MethodCall
  method_call (dispatch w name args_json) = call_of w name (read_args wire args_json)
  method_call (set_context a b c) = []
  method_call (set_emit_callback cb) = []
  method_call (accept_token name token) = []
  method_call get_methods = []
  method_call get_protocol_version = []
  method_call (string_free text) = []

  abbrev pub method_calls : List HostCall → List MethodCall
  method_calls [] = []
  method_calls (c ∷ cs) = method_call c ++ method_calls cs

  -- The module after calls of methods.
  abbrev pub perform : List MethodCall → AccountsModule → AccountsModule
  perform [] m = m
  perform (c ∷ cs) m = perform cs (dispatch_impl json c.surroundings c.name c.args (some m)).1

  -- The statics after calls of the host.
  abbrev pub run : List HostCall → Statics → Statics
  run [] s = s
  run (c ∷ cs) s = run cs (enter json wire c s).1

  pub perform-append :
      (cs ds : List MethodCall) (m : AccountsModule)
      → perform (cs ++ ds) m ≡ perform ds (perform cs m)
  perform-append [] ds m = refl
  perform-append (c ∷ cs) ds m = perform-append cs ds _

  abbrev module_of : Statics → AccountsModule
  module_of s = instance_or_default s.instance_slot

  dispatch_ready-perform :
      (w : Surroundings) (name : String) (args : Option (List Arg)) (s : Statics)
      → module_of (dispatch_ready json wire w name args s).2
        ≡ perform (call_of w (some name) args) (module_of s)
  unfolding dispatch_ready dispatch_registered answered instance_or_default
  dispatch_ready-perform w name none s = refl
  dispatch_ready-perform w name (some args) s =
      let p = ensure_ready-IsPrepared false s in rw (p.registered, p.instance_slot) refl

  enter-perform :
      (call : HostCall) (s : Statics)
      → module_of (enter json wire call s).1 ≡ perform (method_call call) (module_of s)
  unfolding enter logos_module_dispatch logos_module_set_context logos_module_set_emit_callback
      logos_module_accept_token stamp
  enter-perform (dispatch w none args_json) s = refl
  enter-perform (dispatch w (some name) args_json) s =
      dispatch_ready-perform w name (read_args wire args_json) s
  enter-perform (set_context a b c) s = ensure_ready-same true (stamp a b c s)
  enter-perform (set_emit_callback cb) s = ensure_ready-same true (record s { callback = cb })
  enter-perform (accept_token none token) s = refl
  enter-perform (accept_token (some name) none) s = refl
  enter-perform (accept_token (some name) (some tok)) s = refl
  enter-perform get_methods s = refl
  enter-perform get_protocol_version s = refl
  enter-perform (string_free text) s = refl

  -- Calls of the host leave the module as the method calls among them leave it, performed in the
  -- same order: those are the dispatches with a name and with arguments that are absent or an
  -- array. All other calls leave the module as it is, where no instance counts as the default one.
  pub run-perform :
      (calls : List HostCall) (s : Statics)
      → instance_or_default (run calls s).instance_slot
        ≡ perform (method_calls calls) (instance_or_default s.instance_slot)
  run-perform [] s = refl
  run-perform (c ∷ cs) s =
      run-perform cs (enter json wire c s).1
      ∙ (rw (enter-perform c s, perform-append (method_call c) (method_calls cs) (module_of s))
          refl)
