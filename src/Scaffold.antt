-- ===== src/Scaffold.antt =====
-- rust-lib/generated/provider_gen.rs: the entry points of the C interface, with the static state
-- that they share, and rust-lib/src/lib.rs, whose hook installs the implementation. The entry points
-- run one after the other. A pointer to characters is null, or the text that `to_string_lossy`
-- reads there.
pub mod Emit
pub mod Ready
pub mod Tracked
pub mod Sessions
pub mod Hosted
pub mod Answers
pub mod Methods
pub mod Threads
use logos_accounts.Prelude.{
  ℕ, String, Bool, true, false, ◌&&◌, Option, none, some, List, [], ◌∷◌, ◌++◌, Result, ok, err,
  ◌==◌, string_eq, if◌then◌else◌,
}
use logos_accounts.Externals.{Externals}
use logos_accounts.Provider.{Json, Output, Event, AccountsModule}
use logos_accounts.Dispatch.{Arg, Surroundings, dispatch_impl, instance_or_default}
use Emit.{
  CStr, Callback, RustModuleContext, Effect, hook_called, logged, token_saved, Wire, Value, array,
  no_array, to_c_string, deliver,
}

-- `c_int`
pub data ℤ : Type 0 where
  pos negsuc : ℕ → ℤ

-- The arguments of a call: none where the pointer is null, and no call where the text is no array.
unfoldable pub array_of : Result Value String → Option (List Arg)
array_of (ok (array args)) = some args
array_of (ok no_array) = none
array_of (err e) = none

unfoldable pub read_args : Wire → CStr → Option (List Arg)
unfolding array_of
read_args wire none = some []
read_args wire (some raw) = array_of (wire.from_str raw)

unfoldable pub text_or_empty : CStr → String
text_or_empty none = ""
text_or_empty (some s) = s

abbrev pub is_none : {A : Type 0} → Option A → Bool
is_none none = true
is_none (some a) = false

-- `AccountsModuleImpl::on_context_ready`, the call itself included.
unfoldable pub on_context_ready : RustModuleContext → List Effect
on_context_ready ctx =
    if ctx.instance_persistence_path == ""
    then hook_called ctx ∷ []
    else hook_called ctx ∷ logged ctx.instance_persistence_path ∷ []

unfoldable pub reply_text : Wire → Option Output → CStr
unfolding to_c_string
reply_text wire none = none
reply_text wire (some o) = to_c_string (wire.string_text o.reply)

abbrev pub events_of : Option Output → List Event
events_of none = []
events_of (some o) = o.events

module _ ⦃x : Externals⦄ where
  -- The statics. `REGISTERED` has one value other than `None`, the functions of
  -- `AccountsModuleImpl`.
  pub record Statics : Type 0 where
    pub context : Option RustModuleContext
    pub callback : Option Callback
    pub registered : Bool
    pub instance_slot : Option AccountsModule
    pub hook_fired : Bool
    pub tokens : List (String × String)

  unfoldable pub initial : Statics
  initial = record {
    context = none;
    callback = none;
    registered = false;
    instance_slot = none;
    hook_fired = false;
    tokens = [];
  }

  -- `install::<AccountsModuleImpl>()`
  unfoldable pub install : Statics → Statics
  install s = record s { registered = true }

  unfoldable pub logos_module_install : Statics → Statics
  unfolding install
  logos_module_install s = install s

  abbrev pub with_instance : Statics → Statics
  with_instance s = record s { instance_slot = some (instance_or_default s.instance_slot) }

  unfoldable pub fire_hook : Bool → Option RustModuleContext → Statics → List Effect × Statics
  unfolding on_context_ready
  fire_hook require_emit none s = ([], s)
  fire_hook require_emit (some ctx) s =
      if require_emit && is_none s.callback
      then ([], s)
      else (on_context_ready ctx, record s { hook_fired = true })

  unfoldable pub ensure_impl : Bool → Statics → List Effect × Statics
  unfolding fire_hook instance_or_default
  ensure_impl require_emit s =
      if s.hook_fired
      then ([], with_instance s)
      else fire_hook require_emit s.context (with_instance s)

  unfoldable pub ensure_ready : Bool → Statics → List Effect × Statics
  unfolding logos_module_install ensure_impl
  ensure_ready require_emit s =
      let s' = if s.registered then s else logos_module_install s in
      if s'.registered then ensure_impl require_emit s' else ([], s')

  module _ (json : Json) (wire : Wire) (w : Surroundings) where
    unfoldable pub answered :
        Option Output × AccountsModule → Statics → CStr × List Effect × Statics
    unfolding reply_text deliver
    answered done s = (
      reply_text wire done.0,
      deliver wire s.callback (events_of done.0),
      record s { instance_slot = some done.1 },
    )

    unfoldable pub dispatch_registered : String → List Arg → Statics → CStr × List Effect × Statics
    unfolding dispatch_impl answered
    dispatch_registered method args s =
        if s.registered
        then answered (dispatch_impl json w method args s.instance_slot) s
        else (none, [], s)

    unfoldable pub dispatch_ready :
        String → Option (List Arg) → Statics → CStr × List Effect × Statics
    unfolding ensure_ready dispatch_registered
    dispatch_ready method none s = (none, [], s)
    dispatch_ready method (some args) s =
        let (before, s') = ensure_ready false s in
        let (reply, after, s'') = dispatch_registered method args s' in
        (reply, before ++ after, s'')

    unfoldable pub logos_module_dispatch : CStr → CStr → Statics → CStr × List Effect × Statics
    unfolding dispatch_ready read_args
    logos_module_dispatch none args_json s = (none, [], s)
    logos_module_dispatch (some method) args_json s =
        dispatch_ready method (read_args wire args_json) s

  -- The context as `logos_module_set_context` stores it.
  unfoldable pub stamp : CStr → CStr → CStr → Statics → Statics
  unfolding text_or_empty
  stamp module_path instance_id instance_persistence_path s = record s {
    context = some (record {
      module_path = text_or_empty module_path;
      instance_id = text_or_empty instance_id;
      instance_persistence_path = text_or_empty instance_persistence_path;
    });
  }

  unfoldable pub logos_module_set_context : CStr → CStr → CStr → Statics → List Effect × Statics
  unfolding ensure_ready stamp
  logos_module_set_context module_path instance_id instance_persistence_path s =
      ensure_ready true (stamp module_path instance_id instance_persistence_path s)

  unfoldable pub logos_module_set_emit_callback : Option Callback → Statics → List Effect × Statics
  unfolding ensure_ready
  logos_module_set_emit_callback cb s = ensure_ready true (record s { callback = cb })

  unfoldable pub logos_module_accept_token : CStr → CStr → Statics → ℤ × List Effect × Statics
  logos_module_accept_token none token s = (negsuc 0, [], s)
  logos_module_accept_token (some name) none s = (negsuc 0, [], s)
  logos_module_accept_token (some name) (some tok) s =
      (pos 0, token_saved name tok ∷ [], record s { tokens = s.tokens ++ (name, tok) ∷ [] })

abbrev pub logos_module_get_protocol_version : CStr
logos_module_get_protocol_version = some "0.1.0"

module _ ⦃x : Externals⦄ where
  -- The calls that the host can make. `logos_module_get_methods`,
  -- `logos_module_get_protocol_version` and `logos_module_string_free` leave the statics alone.
  pub data HostCall : Type 0 where
    dispatch : Surroundings → CStr → CStr → HostCall
    set_context : CStr → CStr → CStr → HostCall
    set_emit_callback : Option Callback → HostCall
    accept_token : CStr → CStr → HostCall
    get_methods get_protocol_version : HostCall
    string_free : CStr → HostCall

  abbrev pub effects_of : {A : Type 0} → A × List Effect × Statics → List Effect × Statics
  effects_of out = (out.1, out.2)

  unfoldable pub enter : Json → Wire → HostCall → Statics → List Effect × Statics
  unfolding logos_module_dispatch logos_module_set_context logos_module_set_emit_callback
      logos_module_accept_token
  enter json wire (dispatch w method args_json) s =
      effects_of (logos_module_dispatch json wire w method args_json s)
  enter json wire (set_context module_path instance_id instance_persistence_path) s =
      logos_module_set_context module_path instance_id instance_persistence_path s
  enter json wire (set_emit_callback cb) s = logos_module_set_emit_callback cb s
  enter json wire (accept_token name token) s = effects_of (logos_module_accept_token name token s)
  enter json wire get_methods s = ([], s)
  enter json wire get_protocol_version s = ([], s)
  enter json wire (string_free text) s = ([], s)
