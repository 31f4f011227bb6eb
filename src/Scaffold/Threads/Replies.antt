-- ===== src/Scaffold/Threads/Replies.antt =====
-- The replies to interleaved threads.
use logos_accounts.Prelude.{
  ℕ, ◌≡◌, refl, sym, ◌∙◌, subst, ap, ◌≢◌, ◌⊎◌, Bool-cases, inl, inr, true, false, none, some, List,
  [], ◌∷◌, ◌++◌, append-nil, arith,
}
use logos_accounts.Externals.{Externals}
use logos_accounts.Provider.{Json}
use logos_accounts.Dispatch.{dispatch_impl, instance_or_default}
use logos_accounts.Scaffold.Emit.{CStr, Effect, Wire}
use logos_accounts.Scaffold.{reply_text}
use logos_accounts.Scaffold.Hosted.{MethodCall, perform}
use logos_accounts.Scaffold.Threads.{
  Next, stop, invoke, Pc, World, Moved, after_ready, invoke_step, emitting, replying,
}
use logos_accounts.Scaffold.Threads.Runs.{
  System, Run, start, begin, turn, start_call, StartsAt, at_end, at_stamp, at_set, at_check,
  at_save, start_call-StartsAt,
}
use logos_accounts.Scaffold.Threads.Locks.{put_cases}
use logos_accounts.Scaffold.Threads.Moves.{
  Moves, stamps, sets, finds, misses, installs, looks, gives_up, enters, has_fired, loads,
  no_context, reads_context, no_callback, reads_emit, stores, calls, leaves, locks, unregistered,
  invokes, runs, emits, ends, replies, saves, pushes, advance-Moves,
}
use logos_accounts.Scaffold.Threads.Exclusive.{IsExclusive, Run-IsExclusive, in_registered}
use logos_accounts.Scaffold.Threads.Working.{module_of, Holds, Run-Holds}
use logos_accounts.Scaffold.Threads.Serial.{Run-perform}

module _ ⦃x : Externals⦄ (json : Json) (wire : Wire) where
  -- The last of the methods performed is `c`, and `reply` is its reply on the module that the
  -- methods before it leave.
  pub record IsReply (c : MethodCall) (reply : CStr) (history : List MethodCall) : Type 0 where
    pub before : List MethodCall
    pub last : history ≡ before ++ c ∷ []
    pub text :
        reply
        ≡ reply_text wire
            (dispatch_impl json c.surroundings c.name c.args
              (some (perform json wire before (instance_or_default none)))).0

  abbrev Answers : Pc → List MethodCall → Type 0
  Answers (emitting c reply es) h = IsReply c reply h
  Answers (replying c reply) h = IsReply c reply h
  Answers _ h = Unit {0}

  after_ready-Answers : (n : Next) (h : List MethodCall) → Answers (after_ready n) h
  unfolding after_ready
  after_ready-Answers stop h = tt
  after_ready-Answers (invoke c) h = tt

  StartsAt-Answers : {pc : Pc} (h : List MethodCall) → StartsAt pc → Answers pc h
  StartsAt-Answers h at_end = tt
  StartsAt-Answers h at_stamp = tt
  StartsAt-Answers h at_set = tt
  StartsAt-Answers h at_check = tt
  StartsAt-Answers h at_save = tt

  -- Only a thread that holds `REGISTERED` performs a method.
  Moves-performed :
      {i : ℕ} {w : World} {pc : Pc} {m : Moved}
      → Moves json wire i w pc m
      → (m.performed ≡ []) ⊎ (in_registered pc ≡ true)
  unfolding invoke_step
  Moves-performed stamps = inl refl
  Moves-performed sets = inl refl
  Moves-performed (finds h) = inl refl
  Moves-performed misses = inl refl
  Moves-performed installs = inl refl
  Moves-performed looks = inl refl
  Moves-performed (gives_up h) = inl refl
  Moves-performed (enters h) = inl refl
  Moves-performed (has_fired h) = inl refl
  Moves-performed (loads h) = inl refl
  Moves-performed (no_context h) = inl refl
  Moves-performed (reads_context h) = inl refl
  Moves-performed (no_callback h) = inl refl
  Moves-performed reads_emit = inl refl
  Moves-performed stores = inl refl
  Moves-performed calls = inl refl
  Moves-performed leaves = inl refl
  Moves-performed (locks h) = inl refl
  Moves-performed unregistered = inl refl
  Moves-performed (invokes h) = inl refl
  Moves-performed runs = inr refl
  Moves-performed emits = inl refl
  Moves-performed ends = inl refl
  Moves-performed replies = inl refl
  Moves-performed saves = inl refl
  Moves-performed pushes = inl refl

  Moves-Answers :
      {i : ℕ} {w : World} {pc : Pc} {m : Moved} (h : List MethodCall)
      → instance_or_default w.statics.instance_slot ≡ perform json wire h (instance_or_default none)
      → Holds pc (module_of w)
      → Answers pc h
      → Moves json wire i w pc m
      → Answers m.pc (h ++ m.performed)
  unfolding invoke_step instance_or_default
  Moves-Answers h same held a stamps = tt
  Moves-Answers h same held a sets = tt
  Moves-Answers h same held a (finds g) = tt
  Moves-Answers h same held a misses = tt
  Moves-Answers h same held a installs = tt
  Moves-Answers h same held a looks = tt
  Moves-Answers h same held a (gives_up {n = n} g) = after_ready-Answers n _
  Moves-Answers h same held a (enters g) = tt
  Moves-Answers h same held a (has_fired g) = tt
  Moves-Answers h same held a (loads g) = tt
  Moves-Answers h same held a (no_context g) = tt
  Moves-Answers h same held a (reads_context g) = tt
  Moves-Answers h same held a (no_callback g) = tt
  Moves-Answers h same held a reads_emit = tt
  Moves-Answers h same held a stores = tt
  Moves-Answers h same held a calls = tt
  Moves-Answers h same held a (leaves {n = n}) = after_ready-Answers n _
  Moves-Answers h same held a (locks g) = tt
  Moves-Answers h same held a unregistered = tt
  Moves-Answers h same held a (invokes g) = tt
  Moves-Answers h same held a (runs {c}) = record {
    before = h;
    last = refl;
    text =
        ap (λ m. reply_text wire (dispatch_impl json c.surroundings c.name c.args (some m)).0)
          (sym held ∙ same);
  }
  Moves-Answers h same held a emits = rw (append-nil h) a
  Moves-Answers h same held a ends = rw (append-nil h) a
  Moves-Answers h same held a replies = tt
  Moves-Answers h same held a saves = tt
  Moves-Answers h same held a pushes = tt

  -- Without the lock of `REGISTERED` a thread has no reply in hand.
  Answers-outside :
      (pc : Pc) (h h' : List MethodCall) → in_registered pc ≡ false → Answers pc h → Answers pc h'
  Answers-outside (emitting c reply es) h h' o a = absurd (cc)
  Answers-outside (replying c reply) h h' o a = absurd (cc)
  Answers-outside _ h h' o a = tt

  module _ (s : System) (v : IsExclusive s) (i : ℕ) where
    -- While one thread holds `REGISTERED`, no other does.
    alone : in_registered (s.pcs i) ≡ true → (j : ℕ) → i ≢ j → in_registered (s.pcs j) ≡ false
    alone here j apart = elim (Bool-cases (in_registered (s.pcs j))) [
      | inr out ↦ out
      | inl there ↦
          absurd (ground (arith, (v.of_registered i).0 here, (v.of_registered j).0 there, apart))
    ]

    others-Answers :
        (h : List MethodCall) (m : Moved)
        → Moves json wire i s.world (s.pcs i) m
        → (j : ℕ) → i ≢ j
        → Answers (s.pcs j) h
        → Answers (s.pcs j) (h ++ m.performed)
    others-Answers h m move j apart a = elim (Moves-performed move) [
      | inl none_new ↦ rw (none_new, append-nil h) a
      | inr here ↦ Answers-outside (s.pcs j) h (h ++ m.performed) (alone here j apart) a
    ]

  Run-Answers :
      {history : List MethodCall} {trace : List Effect} {s : System}
      → Run json wire history trace s
      → (j : ℕ) → Answers (s.pcs j) history
  Run-Answers start j = tt
  Run-Answers (begin {history} {s = s} i call free run) j =
      let rest = Run-Answers run j in
      put_cases (λ p. Answers p history) i j (start_call wire call) s.pcs
        (λ _. StartsAt-Answers history (start_call-StartsAt wire call)) λ _. rest
  Run-Answers (turn {history} {s = s} i m next run) j =
      let move = advance-Moves json wire i (s.pcs i) s.world next in
      let mine = Run-Answers run i in
      let rest = Run-Answers run j in
      put_cases (λ p. Answers p (history ++ m.performed)) i j m.pc s.pcs
        (λ _.
          Moves-Answers history (Run-perform json wire run) (Run-Holds json wire run i) mine move)
        λ apart. others-Answers s (Run-IsExclusive json wire run) i history m move j apart rest

  -- Whatever threads call the entry points, in any interleaving: a thread that is about to return
  -- from a dispatch returns the reply of its own method, which is the last one performed, on the
  -- module as the methods performed before it leave it, one after the other.
  pub Run-IsReply :
      {history : List MethodCall} {trace : List Effect} {s : System}
      → Run json wire history trace s
      → (i : ℕ) (c : MethodCall) (reply : CStr) → s.pcs i ≡ replying c reply
      → IsReply c reply history
  Run-IsReply {history} run i c reply at = subst (λ pc. Answers pc history) at (Run-Answers run i)
