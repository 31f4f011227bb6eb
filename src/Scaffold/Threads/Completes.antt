-- ===== src/Scaffold/Threads/Completes.antt =====
-- Calls come to their end: finitely many steps, and no deadlock on the way.
use logos_accounts.Prelude.{
  ℕ, zero, suc, ◌≤◌, ◌<◌, ◌≡◌, refl, sym, ap, subst, ◌∙◌, ◌≢◌, ◌⊎◌, inl, inr, Bool, true, false,
  some, List, ◌++◌, arith, ◌==◌, nat_eq, if◌then◌else◌,
}
use native.Mathlib.Decide.{dec_lt}
use logos_accounts.Externals.{Externals}
use logos_accounts.Provider.{Json}
use logos_accounts.Scaffold.Emit.{Effect, Wire}
use logos_accounts.Scaffold.Hosted.{MethodCall}
use logos_accounts.Scaffold.Threads.{Pc, World, Moved, idle, advance, put}
use logos_accounts.Scaffold.Threads.Locks.{put_cases}
use logos_accounts.Scaffold.Threads.Runs.{System, Run, turn, moved}
use logos_accounts.Scaffold.Threads.Halts.{Halts, halts, advance-Halts}
use logos_accounts.Scaffold.Threads.Progress.{Run-progress}

module _ ⦃x : Externals⦄ where
  abbrev is_idle : Pc → Bool
  is_idle idle = true
  is_idle _ = false

  idle-cases : (pc : Pc) → (pc ≡ idle) ⊎ (is_idle pc ≡ false)
  idle-cases idle = inl refl
  idle-cases _ = inr refl

  -- Of the first threads all are idle, or one is in a call.
  busy_below :
      (n : ℕ) (pcs : ℕ → Pc)
      → ((i : ℕ) → i < n → pcs i ≡ idle) ⊎ ((i : ℕ) × (is_idle (pcs i) ≡ false))
  busy_below zero pcs = inl λ i lt. absurd (omega arith)
  busy_below (suc n) pcs = elim (idle-cases (pcs n)) [
    | inr busy ↦ inr (n, busy)
    | inl rest ↦ elim (busy_below n pcs) [
      | inr busy ↦ inr busy
      | inl below ↦ inl λ i lt. elim (dec_lt i n) [
        | yes small ↦ below i small
        | no big ↦ let last : n ≡ i = omega arith in subst (λ k. pcs k ≡ idle) last rest
      ]
    ]
  ]

  module _ (json : Json) (wire : Wire) where
    -- The first `n` threads take finitely many steps, in any order, whatever the statics are.
    data Settles (n : ℕ) : (ℕ → Pc) → Type 0 where
      settles :
          {pcs : ℕ → Pc}
          → ((i : ℕ)
              → i < n
              → (w : World) (m : Moved) → advance json wire i (pcs i) w ≡ some m
              → Settles n (put i m.pc pcs))
          → Settles n pcs

    -- One thread more.
    Settles-suc :
        {n : ℕ} {pcs : ℕ → Pc} {pc : Pc}
        → Settles n pcs
        → Halts json wire n pc
        → (all : ℕ → Pc) → ((j : ℕ) → j < n → all j ≡ pcs j)
        → all n ≡ pc
        → Settles (suc n) all
    Settles-suc {n} {pcs} {pc} (settles f) (halts h) all below at = settles λ i lt w m next.
        elim (dec_lt i n) [
          | yes small ↦
              Settles-suc
                (f i small w m (subst (λ p. advance json wire i p w ≡ some m) (below i small) next))
                (halts h) (put i m.pc all)
                (λ j jn. ap (λ q. if i == j then m.pc else q) (below j jn))
                (put_cases (λ q. q ≡ pc) i n m.pc all (λ e. absurd (omega (arith, small, e)))
                  λ _. at)
          | no big ↦
              let last : i ≡ n = omega (arith, lt, big) in
              let own : advance json wire n (all n) w ≡ some m =
                subst (λ k. advance json wire k (all k) w ≡ some m) last next in
              Settles-suc (settles f) (h w m (subst (λ p. advance json wire n p w ≡ some m) at own))
                (put i m.pc all)
                (λ j jn.
                  put_cases (λ q. q ≡ pcs j) i j m.pc all (λ e. absurd (omega (arith, last, e, jn)))
                    λ _. below j jn)
                (put_cases (λ q. q ≡ m.pc) i n m.pc all (λ _. refl) λ apart. absurd (apart last))
        ]

    all-Settles : (n : ℕ) (pcs : ℕ → Pc) → Settles n pcs
    all-Settles zero pcs = settles λ i lt. absurd (omega arith)
    all-Settles (suc n) pcs =
        Settles-suc (all-Settles n pcs) (advance-Halts json wire n (pcs n)) pcs (λ j jn. refl) refl

    -- Steps of threads, without a new call.
    pub data Onward : System → System → Type 0 where
      stay : {s : System} → Onward s s
      step :
          {s s' : System} (i : ℕ) (m : Moved)
          → advance json wire i (s.pcs i) s.world ≡ some m
          → Onward (moved i m s) s'
          → Onward s s'

    -- Steps without a new call that end with no thread in a call.
    pub record Completed (s : System) : Type 0 where
      pub last : System
      pub onward : Onward s last
      pub rest : (i : ℕ) → last.pcs i ≡ idle

    -- A step of a thread below `n` leaves the others idle.
    moved-idle :
        (n i : ℕ) (m : Moved) (s : System)
        → i < n
        → ((j : ℕ) → n ≤ j → s.pcs j ≡ idle)
        → (j : ℕ) → n ≤ j
        → (moved i m s).pcs j ≡ idle
    moved-idle n i m s lt others j ge =
        put_cases (λ p. p ≡ idle) i j m.pc s.pcs (λ e. absurd (omega (arith, lt, ge, e)))
          λ _. others j ge

    idle_stays : (i : ℕ) (m : Moved) (w : World) → advance json wire i idle w ≢ some m
    unfolding advance
    idle_stays i m w h = cc

    -- Who can move is in a call, and so one of the first threads.
    CanMove-lt :
        (n j : ℕ) (m : Moved) (s : System)
        → ((i : ℕ) → n ≤ i → s.pcs i ≡ idle)
        → advance json wire j (s.pcs j) s.world ≡ some m
        → j < n
    CanMove-lt n j m s others next = elim (dec_lt j n) [
      | yes lt ↦ lt
      | no ge ↦
          let at : s.pcs j ≡ idle = others j (omega (arith, ge)) in
          absurd
            (idle_stays j m s.world (subst (λ p. advance json wire j p s.world ≡ some m) at next))
    ]

    Settles-Completed :
        (n : ℕ) {pcs : ℕ → Pc}
        → Settles n pcs
        → (history : List MethodCall) (trace : List Effect) (s : System) → pcs ≡ s.pcs
        → Run json wire history trace s
        → ((i : ℕ) → n ≤ i → s.pcs i ≡ idle)
        → Completed s
    Settles-Completed n (settles f) history trace s is run others = elim (busy_below n s.pcs) [
      | inl below ↦ record {
        last = s;
        onward = stay;
        rest =
            λ i. elim (dec_lt i n) [ yes lt ↦ below i lt | no ge ↦ others i (omega (arith, ge)) ];
      }
      | inr (i, busy) ↦
          let (j, (m, next)) =
            Run-progress json wire run i
              (λ e. let lost : false ≡ true = sym busy ∙ ap is_idle e in absurd (cc)) in
          let lt = CanMove-lt n j m s others next in
          let rest =
            Settles-Completed n
              (f j lt s.world m
                (subst (λ g. advance json wire j (g j) s.world ≡ some m) (sym is) next))
              (history ++ m.performed) (trace ++ m.effects) (moved j m s) (ap (put j m.pc) is)
              (turn j m next run) (moved-idle n j m s lt others) in
          record { last = rest.last; onward = step j m next rest.onward; rest = rest.rest }
    ]

    -- Whatever calls are under way, in threads below `n` and after any interleaving, all of them can
    -- come to their end without a new call: there are steps after which no thread is in a call.
    pub Run-Completed :
        (n : ℕ) {history : List MethodCall} {trace : List Effect} {s : System}
        → Run json wire history trace s
        → ((i : ℕ) → n ≤ i → s.pcs i ≡ idle)
        → Completed s
    Run-Completed n {s = s} run others =
        Settles-Completed n (all-Settles n s.pcs) _ _ s refl run others
