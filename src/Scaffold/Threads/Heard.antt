-- ===== src/Scaffold/Threads/Heard.antt =====
-- The events of methods reach the host in the order of the methods, and never mixed.
use logos_accounts.Prelude.{
  ℕ, String, ◌≡◌, refl, sym, subst, ap, ◌∙◌, inl, none, some, List, [], ◌++◌, map, append-nil,
  Within, nil, Within-left,
}
use logos_accounts.Externals.{Externals}
use logos_accounts.Provider.{Json}
use logos_accounts.Dispatch.{dispatch_impl, instance_or_default}
use logos_accounts.Scaffold.Emit.{Effect, Wire}
use logos_accounts.Scaffold.{events_of}
use logos_accounts.Scaffold.Hosted.{MethodCall, perform}
use logos_accounts.Scaffold.Threads.{Pc, Moved, invoke_step}
use logos_accounts.Scaffold.Threads.Runs.{
  System, Run, start, begin, turn, moved, start_call, start_call-StartsAt,
}
use logos_accounts.Scaffold.Threads.Moves.{advance-Moves}
use logos_accounts.Scaffold.Threads.Exclusive.{IsExclusive, Run-IsExclusive}
use logos_accounts.Scaffold.Threads.Working.{module_of, Holds, Run-Holds}
use logos_accounts.Scaffold.Threads.Serial.{Run-perform}
use logos_accounts.Scaffold.Threads.Delivered.{
  IsDelivered, map-append, quiet-IsDelivered, invoked-IsDelivered, emitted-IsDelivered,
  ended-IsDelivered,
}
use logos_accounts.Scaffold.Threads.Events.{
  sent_of, sent_of-append, texts_of, emit-Within, is_emitting, StartsAt-quiet, produced,
  produced-append, EventKind, quiet, invoked, emitted, ended, Moves-EventKind,
}

module _ ⦃x : Externals⦄ (json : Json) (wire : Wire) where
  module _ (s : System) (v : IsExclusive s) (i : ℕ) where
    EventKind-IsDelivered :
        (history : List MethodCall) (texts : List (String × String)) {pc : Pc} {m : Moved}
        → instance_or_default s.world.statics.instance_slot
          ≡ perform json wire history (instance_or_default none)
        → IsDelivered json wire (produced json wire history (instance_or_default none)) texts s
        → Holds pc (module_of s.world)
        → s.pcs i ≡ pc
        → EventKind json wire i s.world pc m
        → IsDelivered json wire
            (produced json wire (history ++ m.performed) (instance_or_default none))
            (texts ++ sent_of m.effects)
            (moved i m s)
    unfolding invoke_step instance_or_default
    EventKind-IsDelivered history texts {m = m} same d held at (quiet off after no_method no_text) =
        rw (no_method, no_text, append-nil history, append-nil texts)
          (quiet-IsDelivered json wire s v i _ texts d m (ap is_emitting at ∙ off) after)
    EventKind-IsDelivered history texts same d held at (invoked {c} {held = own}) =
        let base = instance_or_default none in
        let is : own ≡ perform json wire history base = sym held ∙ same in
        let made = ap (λ m. dispatch_impl json c.surroundings c.name c.args (some m)) is in
        let grown =
          ap (λ r. produced json wire history base ++ events_of r.0) made
          ∙ sym (produced-append json wire history c base) in
        rw (append-nil texts) (
          subst
            (λ es. IsDelivered json wire es texts (moved i (invoke_step json wire c own s.world) s))
            grown (invoked-IsDelivered json wire s v i _ texts d c own at))
    EventKind-IsDelivered history texts {m = m} same d held at (emitted {c} {reply} {event} {es}) =
        rw (append-nil history) (
          emitted-IsDelivered json wire s v i _ texts d m c reply event es at refl
            (emit-Within wire s.world.statics.callback event))
    EventKind-IsDelivered history texts {m = m} same d held at (ended {c} {reply}) =
        rw (append-nil history, append-nil texts)
          (ended-IsDelivered json wire s v i _ texts d m c reply at refl)

  Run-IsDelivered :
      {history : List MethodCall} {trace : List Effect} {s : System}
      → Run json wire history trace s
      → IsDelivered json wire
          (produced json wire history (instance_or_default none))
          (sent_of trace)
          s
  Run-IsDelivered start = record {
    out = [];
    left = [];
    split = refl;
    heard = nil;
    mine = λ j on. absurd (cc);
    whose = inl refl;
  }
  Run-IsDelivered (begin {history} {trace} {s} i call free run) =
      let pc = start_call wire call in
      quiet-IsDelivered json wire s (Run-IsExclusive json wire run) i
        (produced json wire history (instance_or_default none)) (sent_of trace)
        (Run-IsDelivered run) (record { pc = pc; world = s.world; effects = []; performed = [] })
        (ap is_emitting free) (StartsAt-quiet (start_call-StartsAt wire call))
  Run-IsDelivered (turn {history} {trace} {s} i m next run) =
      let d = Run-IsDelivered run in
      rw (sent_of-append trace m.effects) (
        EventKind-IsDelivered s (Run-IsExclusive json wire run) i history (sent_of trace)
          (Run-perform json wire run) d (Run-Holds json wire run i) refl
          (Moves-EventKind json wire (advance-Moves json wire i (s.pcs i) s.world next)))

  -- Whatever threads call the entry points, in any interleaving: the texts that the host's callback
  -- receives are, in their order, among the texts of the events of the methods performed, one method
  -- after the other. Events of two methods never mix.
  pub Run-Within :
      {history : List MethodCall} {trace : List Effect} {s : System}
      → Run json wire history trace s
      → Within
          (sent_of trace)
          (map (texts_of wire) (produced json wire history (instance_or_default none)))
  Run-Within run =
      let d = Run-IsDelivered run in
      rw (d.split, map-append (texts_of wire) d.out d.left)
        (Within-left (map (texts_of wire) d.left) d.heard)
