-- ===== src/Scaffold/Threads/Once.antt =====
-- Under interleaved threads the hook is called once, and no call of it is lost.
use logos_accounts.Prelude.{
  ℕ, ◌+◌, ◌≡◌, refl, sym, ap, subst, ◌∙◌, ◌≢◌, ◌⊎◌, Bool, Bool-cases, inl, inr, true, false, List,
  arith,
}
use logos_accounts.Externals.{Externals}
use logos_accounts.Provider.{Json}
use logos_accounts.Scaffold.Emit.{Effect, Wire}
use logos_accounts.Scaffold.{Statics, initial, on_context_ready}
use logos_accounts.Scaffold.Ready.{hook_calls, hook_calls-append, on_context_ready-once}
use logos_accounts.Scaffold.Hosted.{MethodCall}
use logos_accounts.Scaffold.Threads.{
  Pc, Moved, put, idle, looking, reading_context, reading_emit, storing, calling, leaving,
}
use logos_accounts.Scaffold.Threads.Runs.{
  System, Run, start, begin, turn, moved, start_call, StartsAt, at_end, at_stamp, at_set, at_check,
  at_save, start_call-StartsAt,
}
use logos_accounts.Scaffold.Threads.Locks.{put_cases}
use logos_accounts.Scaffold.Threads.Moves.{advance-Moves}
use logos_accounts.Scaffold.Threads.Exclusive.{IsExclusive, Run-IsExclusive, in_instance}
use logos_accounts.Scaffold.Threads.Hook.{
  is_calling, owes, Agrees, IsDue, Ordinary, Kind, ordinary, stored, called, Moves-Kind,
}

module _ ⦃x : Externals⦄ where
  -- The hook, where it was called `k` times: each thread finds what it relies on; it was not called
  -- before the flag is up, and then once, or a thread is about to call it; and where it is due, a
  -- thread is on the way to it.
  pub record IsOnce (s : System) (k : ℕ) : Type 0 where
    pub relied : (i : ℕ) → Agrees (s.pcs i) s.world.statics k
    pub not_yet : s.world.statics.hook_fired ≡ false → k ≡ 0
    pub once :
        s.world.statics.hook_fired ≡ true → (k ≡ 1) ⊎ ((i : ℕ) × (is_calling (s.pcs i) ≡ true))
    pub owed : IsDue s.world.statics → (i : ℕ) × (owes (s.pcs i) ≡ true)

  calling-Agrees : (pc : Pc) (s : Statics) (k : ℕ) → is_calling pc ≡ true → Agrees pc s k → k ≡ 0
  calling-Agrees (calling ctx n) s k h a = a.1
  calling-Agrees _ s k h a = absurd (cc)

  -- A thread that is about to call the hook is the first to do so.
  pub IsOnce-calling :
      (s : System) (k : ℕ) → IsOnce s k → (i : ℕ) → is_calling (s.pcs i) ≡ true → k ≡ 0
  IsOnce-calling s k v i h = calling-Agrees (s.pcs i) s.world.statics k h (v.relied i)

  -- A thread's reliance is on the flag, the number of calls and the registration.
  Agrees-same :
      (pc : Pc) (s s' : Statics) (k k' : ℕ)
      → s'.hook_fired ≡ s.hook_fired
      → k' ≡ k
      → (s.registered ≡ true → s'.registered ≡ true)
      → Agrees pc s k
      → Agrees pc s' k'
  Agrees-same (looking e n) s s' k k' f c r a = r a
  Agrees-same (reading_context e n) s s' k k' f c r a = f ∙ a
  Agrees-same (reading_emit e ctx n) s s' k k' f c r a = f ∙ a
  Agrees-same (storing ctx n) s s' k k' f c r a = f ∙ a
  Agrees-same (calling ctx n) s s' k k' f c r a = (f ∙ a.0, c ∙ a.1)
  Agrees-same _ s s' k k' f c r a = tt

  -- Outside of `INSTANCE` a thread relies on the registration only.
  Agrees-outside :
      (pc : Pc) (s s' : Statics) (k k' : ℕ)
      → in_instance pc ≡ false
      → s'.registered ≡ s.registered
      → Agrees pc s k
      → Agrees pc s' k'
  Agrees-outside (looking e n) s s' k k' o r a = r ∙ a
  Agrees-outside (reading_context e n) s s' k k' o r a = absurd (cc)
  Agrees-outside (reading_emit e ctx n) s s' k k' o r a = absurd (cc)
  Agrees-outside (storing ctx n) s s' k k' o r a = absurd (cc)
  Agrees-outside (calling ctx n) s s' k k' o r a = absurd (cc)
  Agrees-outside _ s s' k k' o r a = tt

  StartsAt-Agrees : {pc : Pc} (s : Statics) (k : ℕ) → StartsAt pc → Agrees pc s k
  StartsAt-Agrees s k at_end = tt
  StartsAt-Agrees s k at_stamp = tt
  StartsAt-Agrees s k at_set = tt
  StartsAt-Agrees s k at_check = tt
  StartsAt-Agrees s k at_save = tt

  module _ (s : System) (k : ℕ) (v : IsOnce s k) (i : ℕ) where
    -- What some thread other than `i` is at, some thread still is.
    still :
        (at : Pc → Bool) (pc : Pc)
        → at (s.pcs i) ≡ false
        → (j : ℕ) × (at (s.pcs j) ≡ true)
        → (j : ℕ) × (at (put i pc s.pcs j) ≡ true)
    still at pc off (j, on) = (
      j,
      put_cases (λ p. at p ≡ true) i j pc s.pcs (λ e. absurd (ground (arith, e, off, on))) λ _. on,
    )

    mover : (at : Pc → Bool) (pc : Pc) → at pc ≡ true → (j : ℕ) × (at (put i pc s.pcs j) ≡ true)
    mover at pc on = (i, put_cases (λ p. at p ≡ true) i i pc s.pcs (λ _. on) λ n. absurd (n refl))

    Ordinary-IsOnce :
        (m : Moved) → Ordinary s.world (s.pcs i) m → IsOnce (moved i m s) (k + hook_calls m.effects)
    Ordinary-IsOnce m o =
        let count : k + hook_calls m.effects ≡ k = omega (arith, o.silent) in
        record {
          relied = λ j.
              put_cases (λ p. Agrees p m.world.statics (k + hook_calls m.effects)) i j m.pc s.pcs
                (λ _. o.agrees _)
                λ _. Agrees-same (s.pcs j) _ _ k _ o.same_flag count o.registered (v.relied j);
          not_yet = λ f. count ∙ v.not_yet (sym o.same_flag ∙ f);
          once = λ f. elim (v.once (sym o.same_flag ∙ f)) [
            | inl one ↦ inl (count ∙ one)
            | inr there ↦ inr (still is_calling m.pc o.from there)
          ];
          owed = λ ready. elim (o.due ready) [
            | inl on ↦ mover owes m.pc on
            | inr (off, before) ↦ still owes m.pc off (v.owed before)
          ];
        }

    module _ (x' : IsExclusive s) where
      -- While one thread is in `INSTANCE`, no other is.
      alone : in_instance (s.pcs i) ≡ true → (j : ℕ) → i ≢ j → in_instance (s.pcs j) ≡ false
      alone here j apart = elim (Bool-cases (in_instance (s.pcs j))) [
        | inr out ↦ out
        | inl there ↦
            absurd (ground (arith, (x'.of_instance i).0 here, (x'.of_instance j).0 there, apart))
      ]

      Kind-IsOnce :
          {pc : Pc} {m : Moved}
          → s.pcs i ≡ pc
          → Kind s.world pc m
          → IsOnce (moved i m s) (k + hook_calls m.effects)
      Kind-IsOnce {m = m} e (ordinary o) =
          Ordinary-IsOnce m (subst (λ pc. Ordinary s.world pc m) (sym e) o)
      Kind-IsOnce e (stored {ctx} {n}) =
          let fresh : s.world.statics.hook_fired ≡ false =
            subst (λ p. Agrees p s.world.statics k) e (v.relied i) in
          let raised = record s.world.statics { hook_fired = true } in
          record {
            relied = λ j.
                put_cases (λ p. Agrees p raised (k + 0)) i j (calling ctx n) s.pcs
                  (λ _. (refl, (omega (arith, v.not_yet fresh))))
                  λ apart.
                    Agrees-outside (s.pcs j) s.world.statics raised k (k + 0)
                      (alone (ap in_instance e) j apart) refl (v.relied j);
            not_yet = λ f. absurd (cc);
            once = λ _. inr (mover is_calling (calling ctx n) refl);
            owed = λ ready. absurd (cc (ready.2));
          }
      Kind-IsOnce e (called {ctx} {n}) =
          let (done, none_yet) = subst (λ p. Agrees p s.world.statics k) e (v.relied i) in
          let count = hook_calls (on_context_ready ctx) in
          record {
            relied = λ j.
                put_cases (λ p. Agrees p s.world.statics (k + count)) i j (leaving n) s.pcs
                  (λ _. tt)
                  λ apart.
                    Agrees-outside (s.pcs j) s.world.statics s.world.statics k (k + count)
                      (alone (ap in_instance e) j apart) refl (v.relied j);
            not_yet = λ f. absurd (ground (arith, f, done));
            once = λ _. inl (omega (arith, none_yet, (on_context_ready-once ctx).0));
            owed = λ ready. absurd (ground (arith, ready.2, done));
          }

      begin-IsOnce :
          (pc : Pc) → s.pcs i ≡ idle → StartsAt pc → IsOnce (record s { pcs = put i pc s.pcs }) k
      begin-IsOnce pc free at = record {
        relied = λ j.
            put_cases (λ p. Agrees p s.world.statics k) i j pc s.pcs
              (λ _. StartsAt-Agrees s.world.statics k at) λ _. v.relied j;
        not_yet = v.not_yet;
        once = λ f. elim (v.once f) [
          | inl one ↦ inl one
          | inr there ↦ inr (still is_calling pc (ap is_calling free) there)
        ];
        owed = λ ready. still owes pc (ap owes free) (v.owed ready);
      }

  module _ (json : Json) (wire : Wire) where
    pub Run-IsOnce :
        {history : List MethodCall} {trace : List Effect} {s : System}
        → Run json wire history trace s
        → IsOnce s (hook_calls trace)
    unfolding initial
    Run-IsOnce start = record {
      relied = λ i. tt;
      not_yet = λ _. refl;
      once = λ f. absurd (cc);
      owed = λ ready. absurd (ready.0 refl);
    }
    Run-IsOnce (begin {trace = trace} {s = s} i call free run) =
        begin-IsOnce s (hook_calls trace) (Run-IsOnce run) i (Run-IsExclusive json wire run)
          (start_call wire call) free (start_call-StartsAt wire call)
    Run-IsOnce (turn {trace = trace} {s = s} i m next run) =
        let v = Run-IsOnce run in
        let k = hook_calls trace in
        rw (hook_calls-append trace m.effects) (
          Kind-IsOnce s k v i (Run-IsExclusive json wire run) refl (
            Moves-Kind json wire k (v.relied i) (advance-Moves json wire i (s.pcs i) s.world next)))
