-- ===== src/Scaffold/Sessions.antt =====
-- What holds after any calls of the host, in any order.
use logos_accounts.Prelude.{
  ◌≤◌, ◌≡◌, refl, sym, ◌∙◌, ◌≢◌, ◌↔◌, inl, inr, Bool-cases, true, Option, none, some, List, [],
  ◌++◌, arith,
}
use logos_accounts.Externals.{Externals}
use logos_accounts.Provider.{Json}
use logos_accounts.Scaffold.Emit.{CStr, Callback, Effect, Wire}
use logos_accounts.Scaffold.{
  Statics, initial, HostCall, set_context, set_emit_callback, enter, stamp,
  logos_module_set_context, logos_module_set_emit_callback,
}
use logos_accounts.Scaffold.Ready.{hook_calls, tokens_of, ensure_ready-IsPrepared}
use logos_accounts.Scaffold.Tracked.{Tracked, enter-Tracked}

module _ ⦃x : Externals⦄ (json : Json) (wire : Wire) where
  -- What the host has seen, and the statics, after its calls.
  pub data Session : List Effect → Statics → Type 0 where
    start : Session [] initial
    step :
        {trace : List Effect} {s : Statics} (call : HostCall)
        → Session trace s
        → Session (trace ++ (enter json wire call s).0) (enter json wire call s).1

  Session-Tracked : {trace : List Effect} {s : Statics} → Session trace s → Tracked trace s
  unfolding initial
  Session-Tracked start = (
    record { once = λ f. absurd (cc); not_yet = λ f. refl; saved = refl },
    λ there. absurd (there refl),
  )
  Session-Tracked (step {trace} {s} call session) =
      enter-Tracked json wire trace call s (Session-Tracked session)

  -- After any calls of the host, in any order, `on_context_ready` was called at most once, and it
  -- was called exactly if the flag `HOOK_FIRED` says so. The tokens that the module keeps are those
  -- that it gave to the SDK, in order.
  pub Session-hook_calls :
      {trace : List Effect} {s : Statics}
      → Session trace s
      → (hook_calls trace ≤ 1)
        × ((s.hook_fired ≡ true) ↔ (hook_calls trace ≡ 1))
        × (tokens_of trace ≡ s.tokens)
  Session-hook_calls {trace} {s} session =
      let c = (Session-Tracked session).0 in
      elim (Bool-cases s.hook_fired) [
        | inl done ↦ ((omega (arith, c.once done)), (c.once, λ _. done), c.saved)
        | inr fresh ↦ (
          (omega (arith, c.not_yet fresh)),
          (c.once, λ one. absurd (omega (arith, one, c.not_yet fresh))),
          c.saved,
        )
      ]

  -- After any calls of the host, in any order, if a context and a callback are set, then
  -- `on_context_ready` was called exactly once.
  pub Session-ready :
      {trace : List Effect} {s : Statics}
      → Session trace s
      → s.context ≢ none
      → s.callback ≢ none
      → hook_calls trace ≡ 1
  Session-ready session there heard = let (c, r) = Session-Tracked session in c.once (r there heard)

  -- The trace and the statics after one more call.
  abbrev pub after : HostCall → List Effect × Statics → List Effect × Statics
  after call (trace, s) = let out = enter json wire call s in (trace ++ out.0, out.1)

  set_context-stamps :
      (a b c : CStr) (s : Statics)
      → let s' = (enter json wire (set_context a b c) s).1 in
        (s'.context ≢ none) × (s'.callback ≡ s.callback)
  unfolding enter logos_module_set_context stamp
  set_context-stamps a b c s =
      let p = ensure_ready-IsPrepared true (stamp a b c s) in
      ((λ e. ground (arith, p.context, e)), p.callback)

  set_emit_callback-sets :
      (cb : Option Callback) (s : Statics)
      → let s' = (enter json wire (set_emit_callback cb) s).1 in
        (s'.callback ≡ cb) × (s'.context ≡ s.context)
  unfolding enter logos_module_set_emit_callback
  set_emit_callback-sets cb s =
      let p = ensure_ready-IsPrepared true (record s { callback = cb }) in (p.callback, p.context)

  -- After any calls of the host: once it sets a context and then a callback, or a callback and
  -- then a context, `on_context_ready` has been called, and only once.
  pub Session-hooked :
      {trace : List Effect} {s : Statics}
      → Session trace s
      → (a b c : CStr) (cb : Callback)
      → let context_first =
          after (set_emit_callback (some cb)) (after (set_context a b c) (trace, s)) in
        let callback_first =
          after (set_context a b c) (after (set_emit_callback (some cb)) (trace, s)) in
        (hook_calls context_first.0 ≡ 1) × (hook_calls callback_first.0 ≡ 1)
  Session-hooked {trace} {s} session a b c cb =
      let stamped = set_context-stamps a b c s in
      let later = set_emit_callback-sets (some cb) (enter json wire (set_context a b c) s).1 in
      let heard = set_emit_callback-sets (some cb) s in
      let last = set_context-stamps a b c (enter json wire (set_emit_callback (some cb)) s).1 in
      (
        Session-ready (step (set_emit_callback (some cb)) (step (set_context a b c) session))
            (λ e. stamped.0 (sym later.1 ∙ e)) (λ e. ground (arith, later.0, e)),
        Session-ready (step (set_context a b c) (step (set_emit_callback (some cb)) session)) last.0
            (λ e. ground (arith, last.1, heard.0, e)),
      )
