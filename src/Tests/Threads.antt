-- ===== src/Tests/Threads.antt =====
-- The theorems on interleaved threads, on three threads that take turns.
use logos_accounts.Prelude.{
  ℕ, ◌≤◌, ◌≡◌, refl, sym, subst, ap, ◌≢◌, Bool, true, false, Bool-cases, inl, inr, Option, some,
  none, List, [], ◌∷◌, ◌++◌, map, Within, arith, ◌==◌, nat_eq, ==_iff,
}
use logos_accounts.Account.{import}
use logos_accounts.Cache.{insert, remove, key_from_multibase}
use logos_accounts.Encoding.{decode_plog, decode_vlad, encode_cid, encode_vlad}
use logos_accounts.Encoding.Hex.{vlad_hash}
use logos_accounts.Plog.{summary_from_verified_plog, get_plog_value}
use logos_accounts.Provider.Logs.{import_plog, remove_plog}
use logos_accounts.Provider.{default_module}
use logos_accounts.Dispatch.{instance_or_default}
use logos_accounts.Scaffold.Emit.{Effect}
use logos_accounts.Scaffold.{is_none, initial, HostCall, dispatch, set_context, set_emit_callback}
use logos_accounts.Scaffold.Ready.{hook_calls}
use logos_accounts.Scaffold.Hosted.{MethodCall, perform}
use logos_accounts.Scaffold.Threads.{replying, Pc, Moved, idle, advance, put}
use logos_accounts.Scaffold.Threads.Runs.{
  System, Run, start, begin, turn, moved, start_call, loaded,
}
use logos_accounts.Scaffold.Threads.Locks.{put_cases}
use logos_accounts.Scaffold.Threads.Serial.{Run-perform}
use logos_accounts.Scaffold.Threads.Events.{sent_of, texts_of, produced}
use logos_accounts.Scaffold.Threads.Heard.{Run-Within}
use logos_accounts.Scaffold.Threads.Replies.{IsReply, Run-IsReply}
use logos_accounts.Scaffold.Threads.Completes.{Completed, Run-Completed}
use logos_accounts.Scaffold.Threads.Fired.{Run-hook_calls, Run-hooked}
use logos_accounts.Scaffold.Threads.Halts.{Halts, advance-Halts}
use logos_accounts.Tests.Demo.{demo}
use logos_accounts.Tests.Sessions.{demo_json, demo_surroundings}
use logos_accounts.Tests.Hosts.{demo_wire, callback}

record Driven : Type 0 where
  history : List MethodCall
  trace : List Effect
  system : System
  run : Run demo_json demo_wire history trace system
  outside : (j : ℕ) → j ≢ 0 → j ≢ 1 → system.pcs j ≡ idle

abbrev thread_of : Bool → ℕ
thread_of false = 0
thread_of true = 1

put_outside :
    (b : Bool) (pc : Pc) (pcs : ℕ → Pc) (j : ℕ)
    → j ≢ 0
    → j ≢ 1
    → pcs j ≡ idle
    → put (thread_of b) pc pcs j ≡ idle
put_outside false pc pcs j n0 n1 h =
    put_cases (λ p. p ≡ idle) 0 j pc pcs (λ e. absurd (n0 (sym e))) λ _. h
put_outside true pc pcs j n0 n1 h =
    put_cases (λ p. p ≡ idle) 1 j pc pcs (λ e. absurd (n1 (sym e))) λ _. h

-- A step of a thread, where it has one.
abbrev drive_one :
    (b : Bool) (d : Driven) (next : Option Moved)
    → advance demo_json demo_wire (thread_of b) (d.system.pcs (thread_of b)) d.system.world ≡ next
    → Driven
drive_one b d none waits = d
drive_one b d (some m) next = record {
  history = d.history ++ m.performed;
  trace = d.trace ++ m.effects;
  system = moved (thread_of b) m d.system;
  run = turn (thread_of b) m next d.run;
  outside = λ j n0 n1. put_outside b m.pc d.system.pcs j n0 n1 (d.outside j n0 n1);
}

-- The threads of the list take a step each, in its order, where they have one.
abbrev drive : List Bool → Driven → Driven
drive [] d = d
drive (b ∷ bs) d = drive bs (drive_one b d _ refl)

abbrev untouched : Driven
untouched = record {
  history = [];
  trace = [];
  system = loaded;
  run = start;
  outside = λ j n0 n1. refl;
}

abbrev drive_call :
    (b : Bool) (call : HostCall) (d : Driven) → d.system.pcs (thread_of b) ≡ idle → Driven
drive_call b call d free = record {
  history = d.history;
  trace = d.trace;
  system = record d.system { pcs = put (thread_of b) (start_call demo_wire call) d.system.pcs };
  run = begin (thread_of b) call free d.run;
  outside =
      λ j n0 n1. put_outside b (start_call demo_wire call) d.system.pcs j n0 n1 (d.outside j n0 n1);
}

-- A context and a callback, each set in its thread.
abbrev begun : Driven
begun =
    drive_call true (set_emit_callback (some callback))
      (drive_call false (set_context none none none) untouched refl) refl

abbrev halfway : Driven
halfway = drive (false ∷ true ∷ false ∷ true ∷ false ∷ false ∷ true ∷ []) begun

abbrev finished : Driven
finished =
    drive
      (false ∷ false ∷ true ∷ false ∷ true ∷ false ∷ false ∷ true ∷ false ∷ false ∷ false ∷ true
        ∷ true ∷ true ∷ true ∷ true ∷ true ∷ true ∷ true ∷ [])
      halfway

-- An import and a removal, in two threads that take turns.
abbrev turns : List Bool
turns = false ∷ true ∷ false ∷ true ∷ false ∷ true ∷ false ∷ true ∷ []

abbrev contended : Driven
contended = drive (turns ++ turns ++ turns ++ turns ++ turns ++ turns) (
    drive_call true (dispatch demo_surroundings (some "remove_plog") (some "v"))
      (drive_call false (dispatch demo_surroundings (some "import_plog") (some "v")) untouched refl)
      refl)

first_idle : finished.system.pcs 0 ≡ idle
unfolding advance start_call initial
first_idle = refl

second_idle : finished.system.pcs 1 ≡ idle
unfolding advance start_call initial
second_idle = refl

all_idle : (i : ℕ) → finished.system.pcs i ≡ idle
all_idle i = elim (Bool-cases (0 == i)) [
  | inl zero ↦ subst (λ j. finished.system.pcs j ≡ idle) ((==_iff 0 i).0 zero) first_idle
  | inr not_zero ↦ elim (Bool-cases (1 == i)) [
    | inl one ↦ subst (λ j. finished.system.pcs j ≡ idle) ((==_iff 1 i).0 one) second_idle
    | inr not_one ↦
        finished.outside i (λ e. cc ((==_iff 0 i).1 (sym e), not_zero))
          λ e. cc ((==_iff 1 i).1 (sym e), not_one)
  ]
]

context_set : finished.system.world.statics.context ≢ none
unfolding advance start_call initial
context_set h = let lost : false ≡ true = ap is_none h in cc

callback_set : finished.system.world.statics.callback ≢ none
unfolding advance start_call initial
callback_set h = let lost : false ≡ true = ap is_none h in cc

Run-hook_calls_example : hook_calls halfway.trace ≤ 1
Run-hook_calls_example = Run-hook_calls demo_json demo_wire halfway.run

Run-hooked_example : hook_calls finished.trace ≡ 1
Run-hooked_example = Run-hooked demo_json demo_wire finished.run all_idle context_set callback_set

Run-perform_example :
    instance_or_default contended.system.world.statics.instance_slot
    ≡ perform demo_json demo_wire contended.history (instance_or_default none)
Run-perform_example = Run-perform demo_json demo_wire contended.run

advance-Halts_example : Halts demo_json demo_wire 1 (halfway.system.pcs 1)
advance-Halts_example = advance-Halts demo_json demo_wire 1 (halfway.system.pcs 1)

abbrev import_call : MethodCall
import_call = record {
  surroundings = demo_surroundings;
  name = "import_plog";
  args = some "v" ∷ [];
}

-- Both methods are performed, the removal after the import.
both_performed :
    contended.history
    ≡ import_call
      ∷ record { surroundings = demo_surroundings; name = "remove_plog"; args = some "v" ∷ [] }
      ∷ []
unfolding advance start_call initial import_plog import decode_plog summary_from_verified_plog
    get_plog_value insert key_from_multibase decode_vlad encode_cid remove_plog remove
    default_module vlad_hash encode_vlad
both_performed = refl

-- The import, about to return.
abbrev replied : Driven
replied =
    drive
      (false ∷ false ∷ false ∷ false ∷ false ∷ false ∷ false ∷ false ∷ false ∷ false ∷ false ∷ [])
      (drive_call false (dispatch demo_surroundings (some "import_plog") (some "v")) untouched refl)

replied_at : replied.system.pcs 0 ≡ replying import_call (some "i.")
unfolding advance start_call initial import_plog import decode_plog summary_from_verified_plog
    get_plog_value insert key_from_multibase decode_vlad encode_cid
replied_at = refl

Run-IsReply_example : IsReply demo_json demo_wire import_call (some "i.") replied.history
Run-IsReply_example =
    Run-IsReply demo_json demo_wire replied.run 0 import_call (some "i.") replied_at

-- A callback, and a removal that fails with an event.
abbrev noisy : Driven
noisy =
    drive
      (true ∷ false ∷ false ∷ true ∷ false ∷ false ∷ false ∷ false ∷ false ∷ false ∷ false ∷ false
        ∷ false ∷ [])
      (drive_call true (set_emit_callback (some callback))
        (drive_call false (dispatch demo_surroundings (some "remove_plog") (some "v")) untouched
          refl)
        refl)

Run-Within_example : Within (sent_of noisy.trace) (
    map
      (texts_of demo_wire)
      (produced demo_json demo_wire noisy.history (instance_or_default none)))
Run-Within_example = Run-Within demo_json demo_wire noisy.run

Run-Completed_example : Completed demo_json demo_wire halfway.system
Run-Completed_example = Run-Completed demo_json demo_wire 2 halfway.run λ i ge.
    halfway.outside i (λ e. absurd (omega (arith, ge, e))) λ e. absurd (omega (arith, ge, e))
