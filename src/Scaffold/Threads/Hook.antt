-- ===== src/Scaffold/Threads/Hook.antt =====
-- The one-time hook under interleaved threads.
use logos_accounts.Prelude.{
  ℕ, ◌≡◌, refl, sym, ap, ◌∙◌, ◌≢◌, ◌⊎◌, Bool, inl, inr, true, false, Option, none, arith,
}
use logos_accounts.Externals.{Externals}
use logos_accounts.Provider.{Json}
use logos_accounts.Scaffold.Emit.{Callback, RustModuleContext, Wire}
use logos_accounts.Scaffold.{Statics, logos_module_install, on_context_ready, stamp}
use logos_accounts.Scaffold.Ready.{hook_calls, emit-IsQuiet}
use logos_accounts.Scaffold.Threads.{
  Next, stop, invoke, Pc, World, Moved, goes, with_statics, after_ready, invoke_step, checking,
  installing, looking, entering, loading, reading_context, reading_emit, storing, calling, leaving,
}
use logos_accounts.Scaffold.Threads.Moves.{
  Moves, stamps, sets, finds, misses, installs, looks, gives_up, enters, has_fired, loads,
  no_context, reads_context, no_callback, reads_emit, stores, calls, leaves, locks, unregistered,
  invokes, runs, emits, ends, replies, saves, pushes,
}

module _ ⦃x : Externals⦄ where
  abbrev pub is_calling : Pc → Bool
  is_calling (calling ctx n) = true
  is_calling _ = false

  -- On the way to the hook.
  abbrev pub owes : Pc → Bool
  owes (checking e n) = true
  owes (installing e n) = true
  owes (looking e n) = true
  owes (entering e n) = true
  owes (loading e n) = true
  owes (reading_context e n) = true
  owes (reading_emit e ctx n) = true
  owes (storing ctx n) = true
  owes _ = false

  -- What a thread at `pc` relies on, where the hook was called `k` times.
  abbrev pub Agrees : Pc → Statics → ℕ → Type 0
  Agrees (looking e n) s k = s.registered ≡ true
  Agrees (reading_context e n) s k = s.hook_fired ≡ false
  Agrees (reading_emit e ctx n) s k = s.hook_fired ≡ false
  Agrees (storing ctx n) s k = s.hook_fired ≡ false
  Agrees (calling ctx n) s k = (s.hook_fired ≡ true) × (k ≡ 0)
  Agrees _ s k = Unit {0}

  -- The hook has what it waits for.
  abbrev pub IsDue : Statics → Type 0
  IsDue s = (s.context ≢ none) × (s.callback ≢ none) × (s.hook_fired ≡ false)

  abbrev of_hook : Statics → Bool × Bool × Option RustModuleContext × Option Callback
  of_hook s = (s.hook_fired, s.registered, s.context, s.callback)

  -- A step that neither raises the flag nor calls the hook.
  pub record Ordinary (w : World) (pc : Pc) (m : Moved) : Type 0 where
    pub same_flag : m.world.statics.hook_fired ≡ w.statics.hook_fired
    pub silent : hook_calls m.effects ≡ 0
    pub from : is_calling pc ≡ false
    pub registered : w.statics.registered ≡ true → m.world.statics.registered ≡ true
    pub agrees : (k : ℕ) → Agrees m.pc m.world.statics k
    pub due : IsDue m.world.statics → (owes m.pc ≡ true) ⊎ ((owes pc ≡ false) × IsDue w.statics)

  -- The steps by what they mean for the hook.
  pub data Kind (w : World) : Pc → Moved → Type 0 where
    ordinary : {pc : Pc} {m : Moved} → Ordinary w pc m → Kind w pc m
    stored :
        {ctx : RustModuleContext} {n : Next}
        → Kind w
            (storing ctx n)
            (goes (calling ctx n) (with_statics (record w.statics { hook_fired = true }) w))
    called :
        {ctx : RustModuleContext} {n : Next}
        → Kind w (calling ctx n) (record (goes (leaving n) w) { effects = on_context_ready ctx })

  -- A step that leaves the statics of the hook alone, and does nothing outside.
  goes-Ordinary :
      {w : World} {pc pc' : Pc}
      → is_calling pc ≡ false
      → ((k : ℕ) → Agrees pc' w.statics k)
      → (IsDue w.statics → (owes pc' ≡ true) ⊎ (owes pc ≡ false))
      → Ordinary w pc (goes pc' w)
  goes-Ordinary f a d = record {
    same_flag = refl;
    silent = refl;
    from = f;
    registered = λ r. r;
    agrees = a;
    due = λ ready. elim (d ready) [ inl o ↦ inl o | inr o ↦ inr (o, ready) ];
  }

  -- A step to a place on the way to the hook.
  bound-Ordinary :
      {w : World} {pc : Pc} {m : Moved}
      → m.world.statics.hook_fired ≡ w.statics.hook_fired
      → (hook_calls m.effects ≡ 0) × (is_calling pc ≡ false)
      → owes m.pc ≡ true
      → (w.statics.registered ≡ true → m.world.statics.registered ≡ true)
      → ((k : ℕ) → Agrees m.pc m.world.statics k)
      → Ordinary w pc m
  bound-Ordinary e q o r a = record {
    same_flag = e;
    silent = q.0;
    from = q.1;
    registered = r;
    agrees = a;
    due = λ _. inl o;
  }

  -- A step from a place that is not on the way to the hook, which leaves the hook's statics alone.
  apart-Ordinary :
      {w : World} {pc : Pc} {m : Moved}
      → (is_calling pc ≡ false) × (owes pc ≡ false)
      → of_hook m.world.statics ≡ of_hook w.statics
      → hook_calls m.effects ≡ 0
      → ((k : ℕ) → Agrees m.pc m.world.statics k)
      → Ordinary w pc m
  apart-Ordinary f e q a = record {
    same_flag = ap (λ t. t.0) e;
    silent = q;
    from = f.0;
    registered = λ r. ap (λ t. t.1) e ∙ r;
    agrees = a;
    due = λ ready. inr (
      f.1,
      (
        (λ h. ready.0 (ap (λ t. t.2) e ∙ h)),
        (λ h. ready.1 (ap (λ t. t.3) e ∙ h)),
        sym (ap (λ t. t.0) e) ∙ ready.2,
      ),
    );
  }

  after_ready-Agrees : (n : Next) (s : Statics) (k : ℕ) → Agrees (after_ready n) s k
  unfolding after_ready
  after_ready-Agrees stop s k = tt
  after_ready-Agrees (invoke c) s k = tt

  module _ (json : Json) (wire : Wire) where
    pub Moves-Kind :
        {i : ℕ} {w : World} {pc : Pc} {m : Moved} (k : ℕ)
        → Agrees pc w.statics k
        → Moves json wire i w pc m
        → Kind w pc m
    unfolding invoke_step stamp logos_module_install
    Moves-Kind k a stamps = ordinary (bound-Ordinary refl (refl, refl) refl (λ r. r) λ _. tt)
    Moves-Kind k a sets = ordinary (bound-Ordinary refl (refl, refl) refl (λ r. r) λ _. tt)
    Moves-Kind k a (finds h) = ordinary (goes-Ordinary refl (λ _. h) λ _. inl refl)
    Moves-Kind k a misses = ordinary (goes-Ordinary refl (λ _. tt) λ _. inl refl)
    Moves-Kind k a installs = ordinary (bound-Ordinary refl (refl, refl) refl (λ _. refl) λ _. refl)
    Moves-Kind k a looks = ordinary (goes-Ordinary refl (λ _. tt) λ _. inl refl)
    Moves-Kind k a (gives_up h) = absurd (cc)
    Moves-Kind k a (enters h) = ordinary (bound-Ordinary refl (refl, refl) refl (λ r. r) λ _. tt)
    Moves-Kind k a (has_fired h) =
        ordinary (goes-Ordinary refl (λ _. tt) λ ready. absurd (ground (arith, ready.2, h)))
    Moves-Kind k a (loads h) = ordinary (goes-Ordinary refl (λ _. h) λ _. inl refl)
    Moves-Kind k a (no_context h) =
        ordinary (goes-Ordinary refl (λ _. tt) λ ready. absurd (ready.0 h))
    Moves-Kind k a (reads_context h) = ordinary (goes-Ordinary refl (λ _. a) λ _. inl refl)
    Moves-Kind k a (no_callback h) =
        ordinary (goes-Ordinary refl (λ _. tt) λ ready. absurd (ready.1 h))
    Moves-Kind k a reads_emit = ordinary (goes-Ordinary refl (λ _. a) λ _. inl refl)
    Moves-Kind k a stores = stored
    Moves-Kind k a calls = called
    Moves-Kind k a (leaves {n = n}) =
        ordinary (apart-Ordinary (refl, refl) refl refl (after_ready-Agrees n _))
    Moves-Kind k a (locks h) = ordinary (apart-Ordinary (refl, refl) refl refl λ _. tt)
    Moves-Kind k a unregistered = ordinary (goes-Ordinary refl (λ _. tt) λ _. inr refl)
    Moves-Kind k a (invokes h) = ordinary (apart-Ordinary (refl, refl) refl refl λ _. tt)
    Moves-Kind k a runs = ordinary (apart-Ordinary (refl, refl) refl refl λ _. tt)
    Moves-Kind {w = w} k a (emits {event = event}) =
        ordinary
          (apart-Ordinary (refl, refl) refl (emit-IsQuiet wire w.statics.callback event).0 λ _. tt)
    Moves-Kind k a ends = ordinary (apart-Ordinary (refl, refl) refl refl λ _. tt)
    Moves-Kind k a replies = ordinary (apart-Ordinary (refl, refl) refl refl λ _. tt)
    Moves-Kind k a saves = ordinary (apart-Ordinary (refl, refl) refl refl λ _. tt)
    Moves-Kind k a pushes = ordinary (apart-Ordinary (refl, refl) refl refl λ _. tt)
