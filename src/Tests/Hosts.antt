-- ===== src/Tests/Hosts.antt =====
-- The theorems on the C interface, on a host that makes a few calls.
use Prim.Native.Char.{code as char_code}
use logos_accounts.Prelude.{
  String, ◌≡◌, refl, Bool-cases, inl, inr, false, some, none, List, [], ◌∷◌, ok, nat_beq,
  if◌then◌else◌,
}
use logos_accounts.Dispatch.{instance_or_default}
use logos_accounts.Scaffold.Emit.{Callback, Effect, Wire, array, has_nul}
use logos_accounts.Scaffold.{
  Statics, initial, HostCall, dispatch, set_context, set_emit_callback, accept_token,
  logos_module_dispatch,
}
use logos_accounts.Scaffold.Ready.{hook_calls}
use logos_accounts.Scaffold.Sessions.{Session, start, step, after, Session-hooked}
use logos_accounts.Scaffold.Hosted.{run, perform, method_calls, run-perform}
use logos_accounts.Scaffold.Answers.{
  TextLaws, IsCall, Performs, Refuses, logos_module_dispatch-Performs,
}
use logos_accounts.Tests.Demo.{demo}
use logos_accounts.Tests.Sessions.{demo_json, demo_surroundings}

abbrev without_nul : String → String
without_nul String.[] = ""
without_nul (String.◌∷◌ c s) =
    let rest = without_nul s in if nat_beq (char_code c) 0 then rest else String.◌∷◌ c rest

without_nul-has_nul : (s : String) → has_nul (without_nul s) ≡ false
unfolding has_nul
without_nul-has_nul String.[] = refl
without_nul-has_nul (String.◌∷◌ c s) = elim (Bool-cases (nat_beq (char_code c) 0)) [
  | inl nul ↦ rw nul (without_nul-has_nul s)
  | inr shown ↦ rw shown (rw shown (without_nul-has_nul s))
]

-- A wire whose strings have no NUL, and whose arguments are one string.
abbrev pub demo_wire : Wire
demo_wire = record {
  array_text = λ strings. "[]";
  string_text = without_nul;
  from_str = λ raw. ok (array (some raw ∷ []));
}

demo_wire-TextLaws : TextLaws demo_wire
demo_wire-TextLaws = record { no_nul = without_nul-has_nul }

abbrev pub callback : Callback
callback = record { cb = 4096; user_data = 0 }

-- A call of a method, a context, a token, and then a callback.
abbrev calls : List HostCall
calls =
    dispatch demo_surroundings (some "import_plog") (some "v")
    ∷ set_context (some "/modules/accounts") none (some "/var/accounts")
    ∷ accept_token (some "wallet") (some "t0")
    ∷ set_emit_callback (some callback)
    ∷ []

abbrev entered : List Effect × Statics
entered = after demo_json demo_wire (accept_token (some "wallet") (some "t0")) (
    after demo_json demo_wire (set_context (some "/modules/accounts") none (some "/var/accounts")) (
      after demo_json demo_wire (dispatch demo_surroundings (some "import_plog") (some "v"))
        ([], initial)))

entered-Session : Session demo_json demo_wire entered.0 entered.1
entered-Session = step (accept_token (some "wallet") (some "t0")) (
    step (set_context (some "/modules/accounts") none (some "/var/accounts"))
      (step (dispatch demo_surroundings (some "import_plog") (some "v")) start))

Session-hooked_example :
    let context_first =
      after demo_json demo_wire
        (set_emit_callback (some callback))
        (after demo_json demo_wire (set_context none none none) entered) in
    let callback_first =
      after demo_json demo_wire
        (set_context none none none)
        (after demo_json demo_wire (set_emit_callback (some callback)) entered) in
    (hook_calls context_first.0 ≡ 1) × (hook_calls callback_first.0 ≡ 1)
Session-hooked_example = Session-hooked demo_json demo_wire entered-Session none none none callback

run-perform_example :
    instance_or_default (run demo_json demo_wire calls initial).instance_slot
    ≡ perform demo_json demo_wire
        (method_calls demo_json demo_wire calls)
        (instance_or_default initial.instance_slot)
run-perform_example = run-perform demo_json demo_wire calls initial

logos_module_dispatch-Performs_example :
    let out =
      logos_module_dispatch demo_json demo_wire demo_surroundings
        (some "import_plog")
        (some "v")
        entered.1 in
    ((c : IsCall demo_wire (some "import_plog") (some "v"))
      → Performs demo_json demo_wire demo_surroundings c.name c.args entered.1 out)
    × (¬ IsCall demo_wire (some "import_plog") (some "v")
        → Refuses demo_json demo_wire entered.1 out)
logos_module_dispatch-Performs_example =
    logos_module_dispatch-Performs demo_json demo_wire demo_wire-TextLaws demo_surroundings
      (some "import_plog") (some "v") entered.1
