-- ===== src/Scaffold/Threads/Progress.antt =====
-- No deadlock: `REGISTERED` is always taken before `INSTANCE`.
use logos_accounts.Prelude.{
  ℕ, ◌≡◌, refl, ◌≢◌, ◌⊎◌, inl, inr, true, Option, none, some, List, [], ◌∷◌,
}
use logos_accounts.Externals.{Externals}
use logos_accounts.Provider.{Json}
use logos_accounts.Scaffold.Emit.{Effect, Wire}
use logos_accounts.Scaffold.Hosted.{MethodCall}
use logos_accounts.Scaffold.Threads.{
  Pc, World, Moved, advance, when_free, idle, stamping, setting, checking, installing, looking,
  entering, loading, reading_context, reading_emit, storing, calling, leaving, locking, invoking,
  running, emitting, replying, saving, pushing,
}
use logos_accounts.Scaffold.Threads.Runs.{System, Run}
use logos_accounts.Scaffold.Threads.Exclusive.{
  IsExclusive, Run-IsExclusive, in_instance, in_registered,
}

module _ {A B C : Type 0} where
  needs_first : A ⊎ B → A ⊎ B ⊎ C
  needs_first (inl can) = inl can
  needs_first (inr held) = inr (inl held)

  needs_second : A ⊎ C → A ⊎ B ⊎ C
  needs_second (inl can) = inl can
  needs_second (inr held) = inr (inr held)

module _ ⦃x : Externals⦄ (json : Json) (wire : Wire) where
  -- The thread has a step that it can take.
  abbrev pub CanMove : ℕ → Pc → World → Type 0
  CanMove i pc w = (m : Moved) × (advance json wire i pc w ≡ some m)

  abbrev IsHeld : Option ℕ → Type 0
  IsHeld owner = (j : ℕ) × (owner ≡ some j)

  when_free-cases :
      (owner : Option ℕ) (m : Moved) → ((m' : Moved) × (when_free owner m ≡ some m')) ⊎ IsHeld owner
  unfolding when_free
  when_free-cases none m = inl (m, refl)
  when_free-cases (some j) m = inr (j, refl)

  -- Who holds `INSTANCE` waits for nothing.
  in_instance-CanMove : (i : ℕ) (pc : Pc) (w : World) → in_instance pc ≡ true → CanMove i pc w
  unfolding advance
  in_instance-CanMove i (loading e n) w h = (_, refl)
  in_instance-CanMove i (reading_context e n) w h = (_, refl)
  in_instance-CanMove i (reading_emit e ctx n) w h = (_, refl)
  in_instance-CanMove i (storing ctx n) w h = (_, refl)
  in_instance-CanMove i (calling ctx n) w h = (_, refl)
  in_instance-CanMove i (leaving n) w h = (_, refl)
  in_instance-CanMove i (running c m) w h = (_, refl)
  in_instance-CanMove i (emitting c reply []) w h = (_, refl)
  in_instance-CanMove i (emitting c reply (e ∷ es)) w h = (_, refl)
  in_instance-CanMove i _ w h = absurd (cc)

  -- Who holds `REGISTERED` waits for `INSTANCE` at most.
  in_registered-CanMove :
      (i : ℕ) (pc : Pc) (w : World)
      → in_registered pc ≡ true
      → CanMove i pc w ⊎ IsHeld w.instance_by
  unfolding advance
  in_registered-CanMove i (invoking c) w h = when_free-cases w.instance_by _
  in_registered-CanMove i (running c m) w h = inl (_, refl)
  in_registered-CanMove i (emitting c reply []) w h = inl (_, refl)
  in_registered-CanMove i (emitting c reply (e ∷ es)) w h = inl (_, refl)
  in_registered-CanMove i (replying c reply) w h = inl (_, refl)
  in_registered-CanMove i _ w h = absurd (cc)

  -- A thread in a call can move, or one of the locks is held.
  abbrev Waits : ℕ → Pc → World → Type 0
  Waits i pc w = CanMove i pc w ⊎ IsHeld w.registered_by ⊎ IsHeld w.instance_by

  advance-Waits : (i : ℕ) (pc : Pc) (w : World) → pc ≢ idle → Waits i pc w
  unfolding advance
  advance-Waits i idle w busy = absurd (busy refl)
  advance-Waits i (stamping a b c) w busy = inl (_, refl)
  advance-Waits i (setting cb) w busy = inl (_, refl)
  advance-Waits i (checking e n) w busy = needs_first (when_free-cases w.registered_by _)
  advance-Waits i (installing e n) w busy = needs_first (when_free-cases w.registered_by _)
  advance-Waits i (looking e n) w busy = needs_first (when_free-cases w.registered_by _)
  advance-Waits i (entering e n) w busy = needs_second (when_free-cases w.instance_by _)
  advance-Waits i (locking c) w busy = needs_first (when_free-cases w.registered_by _)
  advance-Waits i (invoking c) w busy = needs_second (when_free-cases w.instance_by _)
  advance-Waits i (running c m) w busy = inl (_, refl)
  advance-Waits i (replying c reply) w busy = inl (_, refl)
  advance-Waits i (saving name tok) w busy = inl (_, refl)
  advance-Waits i (pushing name tok) w busy = inl (_, refl)
  advance-Waits i (loading e n) w busy = inl (_, refl)
  advance-Waits i (reading_context e n) w busy = inl (_, refl)
  advance-Waits i (reading_emit e ctx n) w busy = inl (_, refl)
  advance-Waits i (storing ctx n) w busy = inl (_, refl)
  advance-Waits i (calling ctx n) w busy = inl (_, refl)
  advance-Waits i (leaving n) w busy = inl (_, refl)
  advance-Waits i (emitting c reply []) w busy = inl (_, refl)
  advance-Waits i (emitting c reply (e ∷ es)) w busy = inl (_, refl)

  module _ {s : System} (v : IsExclusive s) where
    abbrev SomeMoves : Type 0
    SomeMoves = (j : ℕ) × CanMove j (s.pcs j) s.world

    held_instance-SomeMoves : IsHeld s.world.instance_by → SomeMoves
    held_instance-SomeMoves (j, is) =
        (j, in_instance-CanMove j (s.pcs j) s.world ((v.of_instance j).1 is))

    held_registered-SomeMoves : IsHeld s.world.registered_by → SomeMoves
    held_registered-SomeMoves (j, is) =
        elim (in_registered-CanMove j (s.pcs j) s.world ((v.of_registered j).1 is)) [
          | inl can ↦ (j, can)
          | inr held ↦ held_instance-SomeMoves held
        ]

  -- Whatever threads call the entry points, in any interleaving, they never block each other for
  -- good: as long as some thread is in a call, some thread has a step that it can take.
  pub Run-progress :
      {history : List MethodCall} {trace : List Effect} {s : System}
      → Run json wire history trace s
      → (i : ℕ) → s.pcs i ≢ idle
      → (j : ℕ) × CanMove j (s.pcs j) s.world
  Run-progress {s = s} run i busy =
      let v = Run-IsExclusive json wire run in
      elim (advance-Waits i (s.pcs i) s.world busy) [
        | inl can ↦ (i, can)
        | inr (inl held) ↦ held_registered-SomeMoves v held
        | inr (inr held) ↦ held_instance-SomeMoves v held
      ]
