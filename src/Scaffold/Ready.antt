-- ===== src/Scaffold/Ready.antt =====
-- The one-time hook: what `ensure_ready` comes to.
use logos_accounts.Prelude.{
  ℕ, ◌+◌, String, ◌≡◌, refl, ap, ◌≢◌, inl, inr, Bool, Bool-cases, true, false, Option, none, some,
  Option-cases, List, [], ◌∷◌, ◌++◌, arith, ◌==◌, string_eq, ◌&&◌,
}
use logos_accounts.Externals.{Externals}
use logos_accounts.Provider.{Event}
use logos_accounts.Dispatch.{instance_or_default}
use logos_accounts.Scaffold.Emit.{
  Callback, RustModuleContext, Effect, sent, hook_called, logged, token_saved, Wire, deliver, emit,
  emit_event,
}
use logos_accounts.Scaffold.{
  Statics, ensure_ready, ensure_impl, fire_hook, on_context_ready, install, logos_module_install,
  with_instance, is_none,
}

-- How often `on_context_ready` was called.
abbrev pub hook_calls : List Effect → ℕ
hook_calls [] = 0
hook_calls (hook_called ctx ∷ es) = 1 + hook_calls es
hook_calls (sent cb name json ∷ es) = hook_calls es
hook_calls (logged path ∷ es) = hook_calls es
hook_calls (token_saved name token ∷ es) = hook_calls es

-- The tokens that went to the SDK.
abbrev pub tokens_of : List Effect → List (String × String)
tokens_of [] = []
tokens_of (hook_called ctx ∷ es) = tokens_of es
tokens_of (sent cb name json ∷ es) = tokens_of es
tokens_of (logged path ∷ es) = tokens_of es
tokens_of (token_saved name token ∷ es) = (name, token) ∷ tokens_of es

pub hook_calls-append :
    (es fs : List Effect) → hook_calls (es ++ fs) ≡ hook_calls es + hook_calls fs
hook_calls-append [] fs = omega arith
hook_calls-append (hook_called ctx ∷ es) fs = omega (arith, hook_calls-append es fs)
hook_calls-append (sent cb name json ∷ es) fs = hook_calls-append es fs
hook_calls-append (logged path ∷ es) fs = hook_calls-append es fs
hook_calls-append (token_saved name token ∷ es) fs = hook_calls-append es fs

pub tokens_of-append : (es fs : List Effect) → tokens_of (es ++ fs) ≡ tokens_of es ++ tokens_of fs
tokens_of-append [] fs = refl
tokens_of-append (hook_called ctx ∷ es) fs = tokens_of-append es fs
tokens_of-append (sent cb name json ∷ es) fs = tokens_of-append es fs
tokens_of-append (logged path ∷ es) fs = tokens_of-append es fs
tokens_of-append (token_saved name token ∷ es) fs =
    ap (λ ts. (name, token) ∷ ts) (tokens_of-append es fs)

-- No call of the hook, and no token.
abbrev pub IsQuiet : List Effect → Type 0
IsQuiet es = (hook_calls es ≡ 0) × (tokens_of es ≡ [])

pub emit-IsQuiet : (wire : Wire) (cb : Option Callback) (e : Event) → IsQuiet (emit wire cb e)
unfolding emit emit_event
emit-IsQuiet wire none e = (refl, refl)
emit-IsQuiet wire (some cb) e = (refl, refl)

pub deliver-IsQuiet :
    (wire : Wire) (cb : Option Callback) (es : List Event) → IsQuiet (deliver wire cb es)
unfolding deliver emit emit_event
deliver-IsQuiet wire cb [] = (refl, refl)
deliver-IsQuiet wire none (e ∷ es) = deliver-IsQuiet wire none es
deliver-IsQuiet wire (some cb) (e ∷ es) = deliver-IsQuiet wire (some cb) es

pub on_context_ready-once :
    (ctx : RustModuleContext)
    → (hook_calls (on_context_ready ctx) ≡ 1) × (tokens_of (on_context_ready ctx) ≡ [])
unfolding on_context_ready
on_context_ready-once ctx = elim (Bool-cases (ctx.instance_persistence_path == "")) [
  | inl empty ↦ rw empty (refl, refl)
  | inr path ↦ rw path (refl, refl)
]

module _ ⦃x : Externals⦄ where
  -- The statics once the implementation is installed and has an instance.
  abbrev pub prepared : Statics → Statics
  prepared s = with_instance (record s { registered = true })

  -- `ensure_ready` calls the hook, which was not called before, or the hook has nothing to wait for.
  pub data Readied (require_emit : Bool) (s : Statics) : List Effect × Statics → Type 0 where
    quiet :
        (s.hook_fired ≡ false → s.context ≢ none → (require_emit ≡ true) × (s.callback ≡ none))
        → Readied require_emit s ([], prepared s)
    fired :
        (ctx : RustModuleContext)
        → s.context ≡ some ctx
        → s.hook_fired ≡ false
        → Readied require_emit s (on_context_ready ctx, record (prepared s) { hook_fired = true })

  installed :
      (require_emit : Bool) (s : Statics)
      → ensure_ready require_emit s ≡ ensure_impl require_emit (record s { registered = true })
  unfolding ensure_ready logos_module_install install
  installed require_emit s = elim (Bool-cases s.registered) [
    | inl done ↦ rw done refl
    | inr missing ↦ rw missing refl
  ]

  is_none_iff : (cb : Option Callback) → is_none cb ≡ true → cb ≡ none
  is_none_iff none h = refl
  is_none_iff (some cb) h = absurd (cc)

  pub ensure_ready-Readied :
      (require_emit : Bool) (s : Statics) → Readied require_emit s (ensure_ready require_emit s)
  unfolding ensure_impl fire_hook
  ensure_ready-Readied require_emit s = elim (Bool-cases s.hook_fired) [
    | inl done ↦ rw (installed require_emit s, done) (quiet λ fresh. absurd (cc))
    | inr fresh ↦ elim (Option-cases s.context) [
      | inl absent ↦
          rw (installed require_emit s, fresh, absent) (quiet λ _ there. absurd (there refl))
      | inr (ctx, present) ↦ elim (Bool-cases (require_emit && is_none s.callback)) [
        | inl wait ↦
            rw (installed require_emit s, fresh, present, wait)
              (quiet λ _ _. ((ground (arith, wait)), is_none_iff s.callback (ground (arith, wait))))
        | inr go ↦ rw (installed require_emit s, fresh, present, go) (fired ctx refl refl)
      ]
    ]
  ]

  -- What `ensure_ready` leaves: the functions are registered, there is an instance, and the context
  -- and the callback are as they were.
  pub record IsPrepared (s s' : Statics) : Type 0 where
    pub registered : s'.registered ≡ true
    pub instance_slot : s'.instance_slot ≡ some (instance_or_default s.instance_slot)
    pub context : s'.context ≡ s.context
    pub callback : s'.callback ≡ s.callback

  Readied-IsPrepared :
      (require_emit : Bool) (s : Statics) (out : List Effect × Statics)
      → Readied require_emit s out
      → IsPrepared s out.1
  Readied-IsPrepared require_emit s _ (quiet idle) = record {
    registered = refl;
    instance_slot = refl;
    context = refl;
    callback = refl;
  }
  Readied-IsPrepared require_emit s _ (fired ctx present fresh) = record {
    registered = refl;
    instance_slot = refl;
    context = refl;
    callback = refl;
  }

  pub ensure_ready-IsPrepared :
      (require_emit : Bool) (s : Statics) → IsPrepared s (ensure_ready require_emit s).1
  ensure_ready-IsPrepared require_emit s =
      Readied-IsPrepared require_emit s _ (ensure_ready-Readied require_emit s)
