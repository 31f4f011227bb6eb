-- ===== src/Dispatch.antt =====
-- rust-lib/generated/provider_gen.rs: the dispatch of a call by the name of its method. An argument
-- is a JSON value, and stands here as what `as_str` says of it.
pub mod Sessions
pub mod Local
pub mod Answers
use logos_accounts.Prelude.{
  ℕ, zero, suc, String, Option, none, some, List, [], ◌∷◌, ◌==◌, string_eq, ltb, length,
  if◌then◌else◌,
}
use logos_accounts.Externals.{Externals}
use logos_accounts.EphemeralOpen.{OpenPlog, KeyGeneration}
use logos_accounts.Request.{FromStr}
use logos_accounts.Account.{Ambient}
use logos_accounts.Provider.{Json, Output, AccountsModule, Handler, default_module}
use logos_accounts.Provider as Provider
use logos_accounts.Provider.Logs as Logs
use logos_accounts.Provider.Updates as Updates

pub data Method : Type 0 where
  create_account import_plog export_plog remove_plog clear_cache get_value list_delegations : Method
  prepare_update prepare_delegate prepare_revoke commit_update cancel_update : Method

-- The arms of `match method`.
unfoldable pub method_of : String → Option Method
method_of name =
    if name == "create_account"
    then some create_account
    else if name == "import_plog"
    then some import_plog
    else if name == "export_plog"
    then some export_plog
    else if name == "remove_plog"
    then some remove_plog
    else if name == "clear_cache"
    then some clear_cache
    else if name == "get_value"
    then some get_value
    else if name == "list_delegations"
    then some list_delegations
    else if name == "prepare_update"
    then some prepare_update
    else if name == "prepare_delegate"
    then some prepare_delegate
    else if name == "prepare_revoke"
    then some prepare_revoke
    else if name == "commit_update"
    then some commit_update
    else if name == "cancel_update"
    then some cancel_update
    else none

-- How many arguments an arm asks for.
unfoldable pub arity : Method → ℕ
arity create_account = 1
arity import_plog = 1
arity export_plog = 1
arity remove_plog = 1
arity clear_cache = 0
arity get_value = 2
arity list_delegations = 1
arity prepare_update = 2
arity prepare_delegate = 3
arity prepare_revoke = 2
arity commit_update = 3
arity cancel_update = 2

abbrev pub Arg : Type 0
Arg = Option String

abbrev text_or_empty : Arg → String
text_or_empty none = ""
text_or_empty (some s) = s

-- An argument that is missing or no string reads as the empty text.
unfoldable pub arg_str : List Arg → ℕ → String
arg_str [] i = ""
arg_str (a ∷ args) zero = text_or_empty a
arg_str (a ∷ args) (suc i) = arg_str args i

module _ ⦃x : Externals⦄ where
  -- What a call reads besides its arguments: the opening of logs, serde, the clock and the random
  -- generator.
  pub record Surroundings : Type 0 where
    pub open_plog : OpenPlog
    pub gen : KeyGeneration
    pub from_str : FromStr
    pub env : Ambient
    pub now : ℕ

  unfoldable pub call : Json → Surroundings → Method → List Arg → Handler
  unfolding arg_str
  call json w create_account args = Logs.create_account json w.open_plog w.gen (arg_str args 0)
  call json w import_plog args = Logs.import_plog json (arg_str args 0)
  call json w export_plog args = Logs.export_plog json (arg_str args 0)
  call json w remove_plog args = Logs.remove_plog json (arg_str args 0)
  call json w clear_cache args = Logs.clear_cache json
  call json w get_value args = Logs.get_value json (arg_str args 0) (arg_str args 1)
  call json w list_delegations args = Logs.list_delegations json (arg_str args 0)
  call json w prepare_update args =
      Updates.prepare_update json w.from_str w.env (arg_str args 0) (arg_str args 1)
  call json w prepare_delegate args =
      Updates.prepare_delegate json w.env (arg_str args 0) (arg_str args 1) (arg_str args 2)
  call json w prepare_revoke args =
      Updates.prepare_revoke json w.env (arg_str args 0) (arg_str args 1)
  call json w commit_update args =
      Updates.commit_update json w.now (arg_str args 0) (arg_str args 1) (arg_str args 2)
  call json w cancel_update args =
      Updates.cancel_update json w.now (arg_str args 0) (arg_str args 1)

  -- `None` where the method is unknown or arguments are missing.
  unfoldable pub dispatch_known :
      Json
      → Surroundings
      → Option Method
      → List Arg
      → AccountsModule
      → Option Output × AccountsModule
  unfolding arity call
  dispatch_known json w none args m = (none, m)
  dispatch_known json w (some k) args m =
      if ltb (length args) (arity k)
      then (none, m)
      else let done = call json w k args m in (some done.0, done.1)

  -- `get_or_insert_with(T::default)`, written out in the source.
  unfoldable pub instance_or_default : Option AccountsModule → AccountsModule
  instance_or_default none = default_module
  instance_or_default (some m) = m

  unfoldable pub dispatch_impl :
      Json
      → Surroundings
      → String
      → List Arg
      → Option AccountsModule
      → Option Output × AccountsModule
  unfolding method_of dispatch_known instance_or_default
  dispatch_impl json w name args instance_slot =
      dispatch_known json w (method_of name) args (instance_or_default instance_slot)
