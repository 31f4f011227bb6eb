-- ===== src/Scaffold/Tracked.antt =====
-- The number of hook calls and the tokens, along the calls of the host.
use logos_accounts.Prelude.{
  append-nil, append_assoc, String, ◌≡◌, refl, sym, ◌∙◌, ◌≢◌, inl, inr, Bool, Bool-cases, true,
  false, Option, none, some, List, [], ◌∷◌, ◌++◌, arith,
}
use logos_accounts.Externals.{Externals}
use logos_accounts.Provider.{Json}
use logos_accounts.Dispatch.{Arg, Surroundings}
use logos_accounts.Scaffold.Emit.{Effect, token_saved, Wire}
use logos_accounts.Scaffold.{
  Statics, HostCall, dispatch, set_context, set_emit_callback, accept_token, get_methods,
  get_protocol_version, string_free, enter, ensure_ready, logos_module_dispatch, dispatch_ready,
  dispatch_registered, answered, read_args, logos_module_set_context,
  logos_module_set_emit_callback, logos_module_accept_token, on_context_ready,
}
use logos_accounts.Scaffold.Ready.{
  hook_calls, tokens_of, hook_calls-append, tokens_of-append, IsQuiet, deliver-IsQuiet,
  on_context_ready-once, Readied, quiet, fired, ensure_ready-Readied,
}

module _ ⦃x : Externals⦄ where
  -- The hook was called once if the statics say so, and otherwise not at all; the tokens kept are
  -- those that went to the SDK.
  pub record Counted (trace : List Effect) (s : Statics) : Type 0 where
    pub once : s.hook_fired ≡ true → hook_calls trace ≡ 1
    pub not_yet : s.hook_fired ≡ false → hook_calls trace ≡ 0
    pub saved : tokens_of trace ≡ s.tokens

  abbrev pub IsReady : Statics → Type 0
  IsReady s = s.context ≢ none → s.callback ≢ none → s.hook_fired ≡ true

  IsQuiet-Counted :
      (trace es : List Effect) (s s' : Statics)
      → IsQuiet es
      → s'.hook_fired ≡ s.hook_fired
      → s'.tokens ≡ s.tokens
      → Counted trace s
      → Counted (trace ++ es) s'
  IsQuiet-Counted trace es s s' (calls, tokens) same kept c = record {
    once = λ f. omega (arith, hook_calls-append trace es, calls, c.once (sym same ∙ f));
    not_yet = λ f. omega (arith, hook_calls-append trace es, calls, c.not_yet (sym same ∙ f));
    saved = rw (tokens_of-append trace es, tokens, append-nil (tokens_of trace), kept) c.saved;
  }

  Readied-Counted :
      (trace : List Effect) (require_emit : Bool) (s : Statics) (out : List Effect × Statics)
      → Readied require_emit s out
      → Counted trace s
      → Counted (trace ++ out.0) out.1
  Readied-Counted trace require_emit s _ (quiet idle) c =
      IsQuiet-Counted trace [] s _ (refl, refl) refl refl c
  Readied-Counted trace require_emit s _ (fired ctx present fresh) c =
      let (calls, tokens) = on_context_ready-once ctx in
      record {
        once = λ f.
            omega (arith, hook_calls-append trace (on_context_ready ctx), calls, c.not_yet fresh);
        not_yet = λ f. absurd (cc);
        saved =
            rw (tokens_of-append trace (on_context_ready ctx), tokens, append-nil (tokens_of trace))
              c.saved;
      }

  Readied-IsReady :
      (require_emit : Bool) (s : Statics) (out : List Effect × Statics)
      → Readied require_emit s out
      → IsReady out.1
  Readied-IsReady require_emit s _ (quiet idle) there heard = elim (Bool-cases s.hook_fired) [
    | inl done ↦ done
    | inr fresh ↦ absurd (heard (idle fresh there).1)
  ]
  Readied-IsReady require_emit s _ (fired ctx present fresh) there heard = refl

  abbrev pub Tracked : List Effect → Statics → Type 0
  Tracked trace s = Counted trace s × IsReady s

  ensure_ready-Tracked :
      (trace : List Effect) (require_emit : Bool) (s : Statics)
      → Counted trace s
      → Tracked (trace ++ (ensure_ready require_emit s).0) (ensure_ready require_emit s).1
  ensure_ready-Tracked trace require_emit s c =
      let r = ensure_ready-Readied require_emit s in
      (Readied-Counted trace require_emit s _ r c, Readied-IsReady require_emit s _ r)

  module _ (json : Json) (wire : Wire) where
    dispatch_registered-Tracked :
        (trace : List Effect) (w : Surroundings) (method : String) (args : List Arg) (s : Statics)
        → Tracked trace s
        → let out = dispatch_registered json wire w method args s in Tracked (trace ++ out.1) out.2
    unfolding dispatch_registered answered
    dispatch_registered-Tracked trace w method args s (c, r) = elim (Bool-cases s.registered) [
      | inl there ↦
          rw there (IsQuiet-Counted trace _ s _ (deliver-IsQuiet wire s.callback _) refl refl c, r)
      | inr missing ↦ rw missing (IsQuiet-Counted trace [] s _ (refl, refl) refl refl c, r)
    ]

    idle-Tracked : (trace : List Effect) (s : Statics) → Tracked trace s → Tracked (trace ++ []) s
    idle-Tracked trace s t = rw (append-nil trace) t

    dispatch_ready-Tracked :
        (trace : List Effect) (w : Surroundings) (method : String) (args : Option (List Arg))
        (s : Statics)
        → Tracked trace s
        → let out = dispatch_ready json wire w method args s in Tracked (trace ++ out.1) out.2
    unfolding dispatch_ready
    dispatch_ready-Tracked trace w method none s t = idle-Tracked trace s t
    dispatch_ready-Tracked trace w method (some args) s (c, r) =
        let ready = ensure_ready false s in
        rw (← append_assoc trace ready.0 (dispatch_registered json wire w method args ready.1).1) (
          dispatch_registered-Tracked (trace ++ ready.0) w method args ready.1
            (ensure_ready-Tracked trace false s c))

    pub enter-Tracked :
        (trace : List Effect) (call : HostCall) (s : Statics)
        → Tracked trace s
        → Tracked (trace ++ (enter json wire call s).0) (enter json wire call s).1
    unfolding enter logos_module_dispatch logos_module_set_context logos_module_set_emit_callback
        logos_module_accept_token
    enter-Tracked trace (dispatch w none args_json) s t = idle-Tracked trace s t
    enter-Tracked trace (dispatch w (some method) args_json) s t =
        dispatch_ready-Tracked trace w method (read_args wire args_json) s t
    enter-Tracked trace (set_context a b c) s t =
        ensure_ready-Tracked trace true _
          (record { once = t.0.once; not_yet = t.0.not_yet; saved = t.0.saved })
    enter-Tracked trace (set_emit_callback cb) s t =
        ensure_ready-Tracked trace true _
          (record { once = t.0.once; not_yet = t.0.not_yet; saved = t.0.saved })
    enter-Tracked trace (accept_token none token) s t = idle-Tracked trace s t
    enter-Tracked trace (accept_token (some name) none) s t = idle-Tracked trace s t
    enter-Tracked trace (accept_token (some name) (some tok)) s (c, r) =
        let one = token_saved name tok ∷ [] in
        (
          record {
            once = λ f. omega (arith, hook_calls-append trace one, c.once f);
            not_yet = λ f. omega (arith, hook_calls-append trace one, c.not_yet f);
            saved = rw (tokens_of-append trace one, c.saved) refl;
          },
          r,
        )
    enter-Tracked trace get_methods s t = idle-Tracked trace s t
    enter-Tracked trace get_protocol_version s t = idle-Tracked trace s t
    enter-Tracked trace (string_free text) s t = idle-Tracked trace s t
