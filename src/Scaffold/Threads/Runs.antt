-- ===== src/Scaffold/Threads/Runs.antt =====
-- rust-lib/generated/provider_gen.rs: threads that call the entry points, interleaved in any order.
use logos_accounts.Prelude.{ℕ, String, ◌≡◌, Bool, false, Option, none, some, List, [], ◌++◌}
use logos_accounts.Externals.{Externals}
use logos_accounts.Provider.{Json}
use logos_accounts.Dispatch.{Arg, Surroundings}
use logos_accounts.Scaffold.Emit.{CStr, Callback, Effect, Wire}
use logos_accounts.Scaffold.{
  initial, read_args, HostCall, dispatch, set_context, set_emit_callback, accept_token, get_methods,
  get_protocol_version, string_free,
}
use logos_accounts.Scaffold.Hosted.{MethodCall}
use logos_accounts.Scaffold.Threads.{
  Next, Pc, World, Moved, invoke, idle, stamping, setting, checking, saving, advance, put,
}

module _ ⦃x : Externals⦄ where
  unfoldable pub start_dispatch : Surroundings → CStr → Option (List Arg) → Pc
  start_dispatch w none args = idle
  start_dispatch w (some name) none = idle
  start_dispatch w (some name) (some args) =
      checking false (invoke (record { surroundings = w; name = name; args = args }))

  unfoldable pub start_token : CStr → CStr → Pc
  start_token none token = idle
  start_token (some name) none = idle
  start_token (some name) (some tok) = saving name tok

  -- Where a call takes its thread: at once to its end, or before its first use of a static.
  unfoldable pub start_call : Wire → HostCall → Pc
  unfolding start_dispatch start_token read_args
  start_call wire (dispatch w name args_json) = start_dispatch w name (read_args wire args_json)
  start_call wire (set_context a b c) = stamping a b c
  start_call wire (set_emit_callback cb) = setting cb
  start_call wire (accept_token name token) = start_token name token
  start_call wire get_methods = idle
  start_call wire get_protocol_version = idle
  start_call wire (string_free text) = idle

  -- The places where a call starts.
  pub data StartsAt : Pc → Type 0 where
    at_end : StartsAt idle
    at_stamp : {a b c : CStr} → StartsAt (stamping a b c)
    at_set : {cb : Option Callback} → StartsAt (setting cb)
    at_check : {e : Bool} {n : Next} → StartsAt (checking e n)
    at_save : {name tok : String} → StartsAt (saving name tok)

  start_dispatch-StartsAt :
      (w : Surroundings) (name : CStr) (args : Option (List Arg))
      → StartsAt (start_dispatch w name args)
  unfolding start_dispatch
  start_dispatch-StartsAt w none args = at_end
  start_dispatch-StartsAt w (some name) none = at_end
  start_dispatch-StartsAt w (some name) (some args) = at_check

  start_token-StartsAt : (name token : CStr) → StartsAt (start_token name token)
  unfolding start_token
  start_token-StartsAt none token = at_end
  start_token-StartsAt (some name) none = at_end
  start_token-StartsAt (some name) (some tok) = at_save

  pub start_call-StartsAt : (wire : Wire) (call : HostCall) → StartsAt (start_call wire call)
  unfolding start_call
  start_call-StartsAt wire (dispatch w name args_json) =
      start_dispatch-StartsAt w name (read_args wire args_json)
  start_call-StartsAt wire (set_context a b c) = at_stamp
  start_call-StartsAt wire (set_emit_callback cb) = at_set
  start_call-StartsAt wire (accept_token name token) = start_token-StartsAt name token
  start_call-StartsAt wire get_methods = at_end
  start_call-StartsAt wire get_protocol_version = at_end
  start_call-StartsAt wire (string_free text) = at_end

  -- The threads by number, and what they share. A thread without a call is `idle`.
  pub record System : Type 0 where
    pub pcs : ℕ → Pc
    pub world : World

  abbrev pub loaded : System
  loaded = record {
    pcs = λ i. idle;
    world = record { statics = initial; registered_by = none; instance_by = none };
  }

  abbrev pub moved : ℕ → Moved → System → System
  moved i m s = record { pcs = put i m.pc s.pcs; world = m.world }

  -- The methods performed and the effects, in order, and the system, after steps of any threads.
  pub data Run (json : Json) (wire : Wire) : List MethodCall → List Effect → System → Type 0 where
    start : Run json wire [] [] loaded
    begin :
        {history : List MethodCall} {trace : List Effect} {s : System} (i : ℕ) (call : HostCall)
        → s.pcs i ≡ idle
        → Run json wire history trace s
        → Run json wire history trace (record s { pcs = put i (start_call wire call) s.pcs })
    turn :
        {history : List MethodCall} {trace : List Effect} {s : System} (i : ℕ) (m : Moved)
        → advance json wire i (s.pcs i) s.world ≡ some m
        → Run json wire history trace s
        → Run json wire (history ++ m.performed) (trace ++ m.effects) (moved i m s)
