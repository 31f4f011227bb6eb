-- ===== src/Scaffold/Emit.antt =====
-- rust-lib/generated/provider_gen.rs: C strings, and the delivery of events to the host's callback.
use logos_accounts.Prelude.{
  ℕ, String, Bool, false, ◌||◌, Option, none, some, List, [], ◌∷◌, ◌++◌, Result, nat_beq,
  if◌then◌else◌,
}
use logos_accounts.Prelude.Text.{codes}
use logos_accounts.Provider.{
  Event, account_created, account_updated, error, path_delegated, path_revoked,
}
use logos_accounts.Dispatch.{Arg}

-- `*const c_char`
abbrev pub CStr : Type 0
CStr = Option String

-- `(EmitCb, usize)`: the address of the host's function, and its user data.
pub record Callback : Type 0 where
  pub cb : ℕ
  pub user_data : ℕ

pub record RustModuleContext : Type 0 where
  pub module_path : String
  pub instance_id : String
  pub instance_persistence_path : String

-- What the entry points do outside of their state: a call of the host's function with two texts, a
-- call of `on_context_ready`, a line of the log, a call of `logos_rust_sdk::save_token`.
pub data Effect : Type 0 where
  sent : Callback → String → String → Effect
  hook_called : RustModuleContext → Effect
  logged : String → Effect
  token_saved : String → String → Effect

-- `serde_json::Value`, as far as the dispatch looks at the value of its arguments.
pub data Value : Type 0 where
  array : List Arg → Value
  no_array : Value

-- `serde_json`: the texts of an array of strings and of a string, and the reading of a value.
pub record Wire : Type 0 where
  pub array_text : List String → String
  pub string_text : String → String
  pub from_str : String → Result Value String

abbrev nul_among : List ℕ → Bool
nul_among [] = false
nul_among (c ∷ cs) = nat_beq c 0 || nul_among cs

-- `CString::new` fails.
unfoldable pub has_nul : String → Bool
has_nul s = nul_among (codes s)

unfoldable pub to_c_string : String → CStr
unfolding has_nul
to_c_string s = if has_nul s then none else some s

-- `CString::new(s).unwrap_or_default()`
unfoldable pub c_string_or_default : String → String
unfolding has_nul
c_string_or_default s = if has_nul s then "" else s

unfoldable pub emit_event : Wire → Option Callback → String → List String → List Effect
unfolding c_string_or_default
emit_event wire none name payload = []
emit_event wire (some cb) name payload =
    sent cb (c_string_or_default name) (c_string_or_default (wire.array_text payload)) ∷ []

-- The typed emitters: the name and the payload of an event.
unfoldable pub event_name : Event → String
event_name (account_created vlad) = "account_created"
event_name (account_updated head_cid) = "account_updated"
event_name (error message) = "error"
event_name (path_delegated vlad path) = "path_delegated"
event_name (path_revoked vlad path) = "path_revoked"

unfoldable pub event_payload : Event → List String
event_payload (account_created vlad) = vlad ∷ []
event_payload (account_updated head_cid) = head_cid ∷ []
event_payload (error message) = message ∷ []
event_payload (path_delegated vlad path) = vlad ∷ path ∷ []
event_payload (path_revoked vlad path) = vlad ∷ path ∷ []

unfoldable pub emit : Wire → Option Callback → Event → List Effect
unfolding emit_event event_name event_payload
emit wire cb e = emit_event wire cb (event_name e) (event_payload e)

-- The emissions of a method, in order.
unfoldable pub deliver : Wire → Option Callback → List Event → List Effect
unfolding emit
deliver wire cb [] = []
deliver wire cb (e ∷ es) = emit wire cb e ++ deliver wire cb es
