-- ===== src/Scaffold/Methods.antt =====
-- rust-lib/generated/provider_gen.rs: the table of methods and events that the host reads.
use Prim.Native.Char.{code}
use Prim.Native.String.{◌++◌}
use logos_accounts.Prelude.{
  String, ◌≡◌, refl, Option, some, List, [], ◌∷◌, map, In, here, there, length, nat_beq, ◌==◌,
  string_eq, ==_iff, Bool-cases, inl, inr, arith, if◌then◌else◌,
}
use logos_accounts.Provider.{
  Event, account_created, account_updated, error, path_delegated, path_revoked,
}
use logos_accounts.Dispatch.{
  Method, create_account, import_plog, export_plog, remove_plog, clear_cache, get_value,
  list_delegations, prepare_update, prepare_delegate, prepare_revoke, commit_update, cancel_update,
  method_of, arity,
}
use logos_accounts.Scaffold.Emit.{CStr, to_c_string, has_nul, event_name, event_payload}

abbrev methods_json : List String
methods_json =
    "[\n"
    ∷ "{\"isInvokable\":true,\"name\":\"create_account\",\"parameters\":[{\"name\":\"pubkey_multibase\",\"type\":\"QString\"}],\"returnType\":\"QString\",\"signature\":\"create_account(QString)\"},\n"
    ∷ "{\"isInvokable\":true,\"name\":\"import_plog\",\"parameters\":[{\"name\":\"plog_b64\",\"type\":\"QString\"}],\"returnType\":\"QString\",\"signature\":\"import_plog(QString)\"},\n"
    ∷ "{\"isInvokable\":true,\"name\":\"export_plog\",\"parameters\":[{\"name\":\"vlad\",\"type\":\"QString\"}],\"returnType\":\"QString\",\"signature\":\"export_plog(QString)\"},\n"
    ∷ "{\"isInvokable\":true,\"name\":\"remove_plog\",\"parameters\":[{\"name\":\"vlad\",\"type\":\"QString\"}],\"returnType\":\"QString\",\"signature\":\"remove_plog(QString)\"},\n"
    ∷ "{\"isInvokable\":true,\"name\":\"clear_cache\",\"parameters\":[],\"returnType\":\"QString\",\"signature\":\"clear_cache()\"},\n"
    ∷ "{\"isInvokable\":true,\"name\":\"get_value\",\"parameters\":[{\"name\":\"vlad\",\"type\":\"QString\"},{\"name\":\"path\",\"type\":\"QString\"}],\"returnType\":\"QString\",\"signature\":\"get_value(QString,QString)\"},\n"
    ∷ "{\"isInvokable\":true,\"name\":\"list_delegations\",\"parameters\":[{\"name\":\"vlad\",\"type\":\"QString\"}],\"returnType\":\"QString\",\"signature\":\"list_delegations(QString)\"},\n"
    ∷ "{\"isInvokable\":true,\"name\":\"prepare_update\",\"parameters\":[{\"name\":\"vlad\",\"type\":\"QString\"},{\"name\":\"request_json\",\"type\":\"QString\"}],\"returnType\":\"QString\",\"signature\":\"prepare_update(QString,QString)\"},\n"
    ∷ "{\"isInvokable\":true,\"name\":\"prepare_delegate\",\"parameters\":[{\"name\":\"vlad\",\"type\":\"QString\"},{\"name\":\"path\",\"type\":\"QString\"},{\"name\":\"pubkey_multibase\",\"type\":\"QString\"}],\"returnType\":\"QString\",\"signature\":\"prepare_delegate(QString,QString,QString)\"},\n"
    ∷ "{\"isInvokable\":true,\"name\":\"prepare_revoke\",\"parameters\":[{\"name\":\"vlad\",\"type\":\"QString\"},{\"name\":\"path\",\"type\":\"QString\"}],\"returnType\":\"QString\",\"signature\":\"prepare_revoke(QString,QString)\"},\n"
    ∷ "{\"isInvokable\":true,\"name\":\"commit_update\",\"parameters\":[{\"name\":\"vlad\",\"type\":\"QString\"},{\"name\":\"challenge_id\",\"type\":\"QString\"},{\"name\":\"signature_multibase\",\"type\":\"QString\"}],\"returnType\":\"QString\",\"signature\":\"commit_update(QString,QString,QString)\"},\n"
    ∷ "{\"isInvokable\":true,\"name\":\"cancel_update\",\"parameters\":[{\"name\":\"vlad\",\"type\":\"QString\"},{\"name\":\"challenge_id\",\"type\":\"QString\"}],\"returnType\":\"QString\",\"signature\":\"cancel_update(QString,QString)\"},\n"
    ∷ "{\"name\":\"account_created\",\"parameters\":[{\"name\":\"vlad\",\"type\":\"QString\"}],\"signature\":\"account_created(QString)\",\"type\":\"event\"},\n"
    ∷ "{\"name\":\"account_updated\",\"parameters\":[{\"name\":\"head_cid\",\"type\":\"QString\"}],\"signature\":\"account_updated(QString)\",\"type\":\"event\"},\n"
    ∷ "{\"name\":\"path_delegated\",\"parameters\":[{\"name\":\"vlad\",\"type\":\"QString\"},{\"name\":\"path\",\"type\":\"QString\"}],\"signature\":\"path_delegated(QString,QString)\",\"type\":\"event\"},\n"
    ∷ "{\"name\":\"path_revoked\",\"parameters\":[{\"name\":\"vlad\",\"type\":\"QString\"},{\"name\":\"path\",\"type\":\"QString\"}],\"signature\":\"path_revoked(QString,QString)\",\"type\":\"event\"},\n"
    ∷ "{\"name\":\"error\",\"parameters\":[{\"name\":\"message\",\"type\":\"QString\"}],\"signature\":\"error(QString)\",\"type\":\"event\"}\n"
    ∷ "]\n" ∷ []

abbrev joined : List String → String
joined [] = ""
joined (s ∷ ss) = s ++ joined ss

-- `replace('\n', "")`
abbrev without_newlines : String → String
without_newlines String.[] = ""
without_newlines (String.◌∷◌ c s) =
    let rest = without_newlines s in if nat_beq (code c) 10 then rest else String.◌∷◌ c rest

unfoldable pub logos_module_get_methods : CStr
unfolding to_c_string
logos_module_get_methods = to_c_string (without_newlines (joined methods_json))

-- The trait `LogosAccountsModule`: the name of a method and those of its parameters.
pub record Signature : Type 0 where
  pub name : String
  pub parameters : List String

unfoldable pub signature_of : Method → Signature
signature_of create_account = record {
  name = "create_account";
  parameters = "pubkey_multibase" ∷ [];
}
signature_of import_plog = record { name = "import_plog"; parameters = "plog_b64" ∷ [] }
signature_of export_plog = record { name = "export_plog"; parameters = "vlad" ∷ [] }
signature_of remove_plog = record { name = "remove_plog"; parameters = "vlad" ∷ [] }
signature_of clear_cache = record { name = "clear_cache"; parameters = [] }
signature_of get_value = record { name = "get_value"; parameters = "vlad" ∷ "path" ∷ [] }
signature_of list_delegations = record { name = "list_delegations"; parameters = "vlad" ∷ [] }
signature_of prepare_update = record {
  name = "prepare_update";
  parameters = "vlad" ∷ "request_json" ∷ [];
}
signature_of prepare_delegate = record {
  name = "prepare_delegate";
  parameters = "vlad" ∷ "path" ∷ "pubkey_multibase" ∷ [];
}
signature_of prepare_revoke = record { name = "prepare_revoke"; parameters = "vlad" ∷ "path" ∷ [] }
signature_of commit_update = record {
  name = "commit_update";
  parameters = "vlad" ∷ "challenge_id" ∷ "signature_multibase" ∷ [];
}
signature_of cancel_update = record {
  name = "cancel_update";
  parameters = "vlad" ∷ "challenge_id" ∷ [];
}

-- The parameters of an event's emitter.
unfoldable pub event_parameters : Event → List String
event_parameters (account_created vlad) = "vlad" ∷ []
event_parameters (account_updated head_cid) = "head_cid" ∷ []
event_parameters (error message) = "message" ∷ []
event_parameters (path_delegated vlad path) = "vlad" ∷ "path" ∷ []
event_parameters (path_revoked vlad path) = "vlad" ∷ "path" ∷ []

-- The rows of the table.
abbrev separated : List String → String
separated [] = ""
separated (s ∷ []) = s
separated (s ∷ t ∷ ss) = s ++ ("," ++ separated (t ∷ ss))

abbrev parameter_row : String → String
parameter_row p = "{\"name\":\"" ++ (p ++ "\",\"type\":\"QString\"}")

-- The name, the parameters and the signature of a row; every parameter is a text.
abbrev columns : Signature → String → String
columns sig between =
    "\"name\":\""
    ++ (sig.name
        ++ ("\",\"parameters\":["
            ++ (separated (map parameter_row sig.parameters)
                ++ ("],"
                    ++ (between
                        ++ ("\"signature\":\""
                            ++ (sig.name
                                ++ ("("
                                    ++ (separated (map (λ p. "QString") sig.parameters)
                                        ++ ")\"")))))))))

abbrev method_row : Method → String
unfolding signature_of
method_row k =
    "{\"isInvokable\":true," ++ (columns (signature_of k) "\"returnType\":\"QString\"," ++ "}")

abbrev event_row : Signature → String
event_row sig = "{" ++ (columns sig "" ++ ",\"type\":\"event\"}")

abbrev all_methods : List Method
all_methods =
    create_account ∷ import_plog ∷ export_plog ∷ remove_plog ∷ clear_cache ∷ get_value
    ∷ list_delegations ∷ prepare_update ∷ prepare_delegate ∷ prepare_revoke ∷ commit_update
    ∷ cancel_update ∷ []

abbrev all_events : List Signature
all_events =
    record { name = "account_created"; parameters = "vlad" ∷ [] }
    ∷ record { name = "account_updated"; parameters = "head_cid" ∷ [] }
    ∷ record { name = "path_delegated"; parameters = "vlad" ∷ "path" ∷ [] }
    ∷ record { name = "path_revoked"; parameters = "vlad" ∷ "path" ∷ [] }
    ∷ record { name = "error"; parameters = "message" ∷ [] }
    ∷ []

-- The whole table: the rows of the methods, and then those of the events.
abbrev table : String
table =
    "["
    ++ (separated (map method_row all_methods)
        ++ ("," ++ (separated (map event_row all_events) ++ "]")))

get_methods_table : logos_module_get_methods ≡ some table
unfolding logos_module_get_methods signature_of has_nul
get_methods_table = refl

-- A method's name is dispatched to it, and its row has as many parameters as the dispatch asks for.
record IsListed (k : Method) : Type 0 where
  pub dispatched : method_of (signature_of k).name ≡ some k
  pub counted : length (signature_of k).parameters ≡ arity k
  pub listed : In k all_methods

is_listed : (k : Method) → IsListed k
unfolding method_of signature_of arity
is_listed create_account = record { dispatched = refl; counted = refl; listed = here refl }
is_listed k = record { dispatched = refl; counted = refl; listed = search (here, there) depth 14 }

-- An event's name and parameters have a row, and the event carries a value for each parameter.
record IsAnnounced (e : Event) : Type 0 where
  pub counted : length (event_payload e) ≡ length (event_parameters e)
  pub listed : In (record { name = event_name e; parameters = event_parameters e }) all_events

is_announced : (e : Event) → IsAnnounced e
unfolding event_name event_payload event_parameters
is_announced (account_created vlad) = record { counted = refl; listed = here refl }
is_announced e = record { counted = refl; listed = search (here, there) depth 7 }

-- One arm of the dispatch.
arm :
    (name : String) (k' k : Method) (later : Option Method)
    → (later ≡ some k → name ≡ (signature_of k).name)
    → (if name == (signature_of k').name then some k' else later) ≡ some k
    → name ≡ (signature_of k).name
arm name k' k later h e = elim (Bool-cases (name == (signature_of k').name)) [
  | inl same ↦
      let is : k' ≡ k = ground (arith, e, same) in
      rw (← is) ((==_iff name (signature_of k').name).0 same)
  | inr other ↦ h (ground (arith, e, other))
]

only_names : (name : String) (k : Method) → method_of name ≡ some k → name ≡ (signature_of k).name
unfolding method_of signature_of
only_names name k = arm name create_account k _ (
    arm name import_plog k _ (
      arm name export_plog k _ (
        arm name remove_plog k _ (
          arm name clear_cache k _ (
            arm name get_value k _ (
              arm name list_delegations k _ (
                arm name prepare_update k _ (
                  arm name prepare_delegate k _ (
                    arm name prepare_revoke k _ (
                      arm name commit_update k _
                        (arm name cancel_update k _ λ e. absurd (cc))))))))))))

-- The table that `logos_module_get_methods` returns has one row for each method of the trait, with
-- its name and parameters, and one for each event, with those of its emitter. The dispatch knows a
-- method by exactly the name of its row and asks for as many arguments as the row has parameters;
-- an event carries as many values as its row has.
logos_module_get_methods_lem :
    (logos_module_get_methods ≡ some table)
    × ((k : Method) → IsListed k)
    × ((name : String) (k : Method) → method_of name ≡ some k → name ≡ (signature_of k).name)
    × ((e : Event) → IsAnnounced e)
logos_module_get_methods_lem = (get_methods_table, is_listed, only_names, is_announced)
