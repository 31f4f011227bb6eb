-- ===== src/Scaffold/Threads/Working.antt =====
-- The module that a method works on: under the lock of `INSTANCE` it stays what the slot holds.
use logos_accounts.Prelude.{
  ℕ, ◌≡◌, refl, subst, ◌≢◌, ◌⊎◌, Bool-cases, inl, inr, true, false, List, arith,
}
use logos_accounts.Externals.{Externals}
use logos_accounts.Provider.{Json, AccountsModule}
use logos_accounts.Dispatch.{instance_or_default}
use logos_accounts.Scaffold.Emit.{Effect, Wire}
use logos_accounts.Scaffold.{stamp, logos_module_install}
use logos_accounts.Scaffold.Hosted.{MethodCall}
use logos_accounts.Scaffold.Threads.{
  Next, stop, invoke, Pc, World, Moved, after_ready, invoke_step, running,
}
use logos_accounts.Scaffold.Threads.Runs.{
  System, Run, start, begin, turn, start_call, StartsAt, at_end, at_stamp, at_set, at_check,
  at_save, start_call-StartsAt,
}
use logos_accounts.Scaffold.Threads.Locks.{put_cases}
use logos_accounts.Scaffold.Threads.Moves.{
  Moves, stamps, sets, finds, misses, installs, looks, gives_up, enters, has_fired, loads,
  no_context, reads_context, no_callback, reads_emit, stores, calls, leaves, locks, unregistered,
  invokes, runs, emits, ends, replies, saves, pushes, advance-Moves,
}
use logos_accounts.Scaffold.Threads.Exclusive.{IsExclusive, Run-IsExclusive, in_instance}

module _ ⦃x : Externals⦄ where
  abbrev pub module_of : World → AccountsModule
  module_of w = instance_or_default w.statics.instance_slot

  -- What the thread read is what there is now.
  abbrev pub Holds : Pc → AccountsModule → Type 0
  Holds (running c m) now = now ≡ m
  Holds _ now = Unit {0}

  after_ready-Holds : (n : Next) (now : AccountsModule) → Holds (after_ready n) now
  unfolding after_ready
  after_ready-Holds stop now = tt
  after_ready-Holds (invoke c) now = tt

  StartsAt-Holds : {pc : Pc} (now : AccountsModule) → StartsAt pc → Holds pc now
  StartsAt-Holds now at_end = tt
  StartsAt-Holds now at_stamp = tt
  StartsAt-Holds now at_set = tt
  StartsAt-Holds now at_check = tt
  StartsAt-Holds now at_save = tt

  -- Without the lock of `INSTANCE` a thread has no module in hand.
  Holds-outside : (pc : Pc) (now : AccountsModule) → in_instance pc ≡ false → Holds pc now
  Holds-outside (running c m) now o = absurd (cc)
  Holds-outside _ now o = tt

  module _ (json : Json) (wire : Wire) where
    Moves-Holds :
        {i : ℕ} {w : World} {pc : Pc} {m : Moved}
        → Moves json wire i w pc m
        → Holds m.pc (module_of m.world)
    unfolding invoke_step instance_or_default
    Moves-Holds stamps = tt
    Moves-Holds sets = tt
    Moves-Holds (finds h) = tt
    Moves-Holds misses = tt
    Moves-Holds installs = tt
    Moves-Holds looks = tt
    Moves-Holds (gives_up {n = n} h) = after_ready-Holds n _
    Moves-Holds (enters h) = tt
    Moves-Holds (has_fired h) = tt
    Moves-Holds (loads h) = tt
    Moves-Holds (no_context h) = tt
    Moves-Holds (reads_context h) = tt
    Moves-Holds (no_callback h) = tt
    Moves-Holds reads_emit = tt
    Moves-Holds stores = tt
    Moves-Holds calls = tt
    Moves-Holds (leaves {n = n}) = after_ready-Holds n _
    Moves-Holds (locks h) = tt
    Moves-Holds unregistered = tt
    Moves-Holds (invokes h) = refl
    Moves-Holds runs = tt
    Moves-Holds emits = tt
    Moves-Holds ends = tt
    Moves-Holds replies = tt
    Moves-Holds saves = tt
    Moves-Holds pushes = tt

    -- Only a thread that holds `INSTANCE` changes the module.
    Moves-same :
        {i : ℕ} {w : World} {pc : Pc} {m : Moved}
        → Moves json wire i w pc m
        → (module_of w ≡ module_of m.world) ⊎ (in_instance pc ≡ true)
    unfolding stamp logos_module_install instance_or_default
    Moves-same stamps = inl refl
    Moves-same sets = inl refl
    Moves-same (finds h) = inl refl
    Moves-same misses = inl refl
    Moves-same installs = inl refl
    Moves-same looks = inl refl
    Moves-same (gives_up h) = inl refl
    Moves-same (enters h) = inl refl
    Moves-same (has_fired h) = inl refl
    Moves-same (loads h) = inl refl
    Moves-same (no_context h) = inl refl
    Moves-same (reads_context h) = inl refl
    Moves-same (no_callback h) = inl refl
    Moves-same reads_emit = inl refl
    Moves-same stores = inl refl
    Moves-same calls = inl refl
    Moves-same leaves = inl refl
    Moves-same (locks h) = inl refl
    Moves-same unregistered = inl refl
    Moves-same (invokes h) = inl refl
    Moves-same runs = inr refl
    Moves-same emits = inl refl
    Moves-same ends = inl refl
    Moves-same replies = inl refl
    Moves-same saves = inl refl
    Moves-same pushes = inl refl

    module _ (s : System) (v : IsExclusive s) (i : ℕ) where
      -- While one thread holds `INSTANCE`, no other does.
      alone : in_instance (s.pcs i) ≡ true → (j : ℕ) → i ≢ j → in_instance (s.pcs j) ≡ false
      alone here j apart = elim (Bool-cases (in_instance (s.pcs j))) [
        | inr out ↦ out
        | inl there ↦
            absurd (ground (arith, (v.of_instance i).0 here, (v.of_instance j).0 there, apart))
      ]

      others-Holds :
          (m : Moved)
          → Moves json wire i s.world (s.pcs i) m
          → (j : ℕ) → i ≢ j
          → Holds (s.pcs j) (module_of s.world)
          → Holds (s.pcs j) (module_of m.world)
      others-Holds m move j apart a = elim (Moves-same move) [
        | inl same ↦ subst (Holds (s.pcs j)) same a
        | inr here ↦ Holds-outside (s.pcs j) (module_of m.world) (alone here j apart)
      ]

    -- In any interleaving, what a thread read of the module when it took `INSTANCE` is still there
    -- when its method writes.
    pub Run-Holds :
        {history : List MethodCall} {trace : List Effect} {s : System}
        → Run json wire history trace s
        → (j : ℕ) → Holds (s.pcs j) (module_of s.world)
    Run-Holds start j = tt
    Run-Holds (begin {s = s} i call free run) j =
        let rest = Run-Holds run j in
        put_cases (λ p. Holds p (module_of s.world)) i j (start_call wire call) s.pcs
          (λ _. StartsAt-Holds (module_of s.world) (start_call-StartsAt wire call)) λ _. rest
    Run-Holds (turn {s = s} i m next run) j =
        let move = advance-Moves json wire i (s.pcs i) s.world next in
        let rest = Run-Holds run j in
        put_cases (λ p. Holds p (module_of m.world)) i j m.pc s.pcs (λ _. Moves-Holds move)
          λ apart. others-Holds s (Run-IsExclusive json wire run) i m move j apart rest
