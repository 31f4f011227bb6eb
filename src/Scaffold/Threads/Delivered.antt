-- ===== src/Scaffold/Threads/Delivered.antt =====
-- Which events of the methods performed have had their turn, step by step.
use logos_accounts.Prelude.{
  ℕ, String, ◌≡◌, refl, sym, subst, ap, ◌∙◌, ◌≢◌, ◌⊎◌, Bool-cases, inl, inr, true, false, List, [],
  ◌∷◌, ◌++◌, map, append-nil, append_assoc, arith, Within, Within-append,
}
use logos_accounts.Externals.{Externals}
use logos_accounts.Provider.{Json, Event, AccountsModule}
use logos_accounts.Scaffold.Emit.{CStr, Wire}
use logos_accounts.Scaffold.Hosted.{MethodCall}
use logos_accounts.Scaffold.Threads.{Moved, invoke_step, running, emitting}
use logos_accounts.Scaffold.Threads.Runs.{System, moved}
use logos_accounts.Scaffold.Threads.Locks.{put_cases}
use logos_accounts.Scaffold.Threads.Exclusive.{IsExclusive, in_registered}
use logos_accounts.Scaffold.Threads.Events.{
  sent_of, texts_of, is_emitting, left_at, emitting-in_registered,
}

pub map-append :
    {A B : Type 0} (f : A → B) (xs ys : List A) → map f (xs ++ ys) ≡ map f xs ++ map f ys
map-append f [] ys = refl
map-append f (x ∷ xs) ys = ap (λ l. f x ∷ l) (map-append f xs ys)

module _ ⦃x : Externals⦄ (json : Json) (wire : Wire) where
  -- Of the events so far, those in `out` had their turn, and those in `left` are the ones of the
  -- thread that emits.
  pub record IsDelivered (events : List Event) (texts : List (String × String)) (s : System)
      : Type 0 where
    pub out : List Event
    pub left : List Event
    pub split : events ≡ out ++ left
    pub heard : Within texts (map (texts_of wire) out)
    pub mine : (j : ℕ) → is_emitting (s.pcs j) ≡ true → left_at (s.pcs j) ≡ left
    pub whose : (left ≡ []) ⊎ ((j : ℕ) × (is_emitting (s.pcs j) ≡ true))

  module _ (s : System) (v : IsExclusive s) (i : ℕ) where
    -- While one thread is in a dispatch with `REGISTERED`, no other emits.
    silent_else :
        in_registered (s.pcs i) ≡ true → (j : ℕ) → i ≢ j → is_emitting (s.pcs j) ≡ true → ⊥
    silent_else here j apart there =
        let held = (v.of_registered i).0 here in
        let also = (v.of_registered j).0 (emitting-in_registered (s.pcs j) there) in
        ground (arith, held, also, apart)

    module _ (events : List Event) (texts : List (String × String))
        (d : IsDelivered events texts s) where
      pub quiet-IsDelivered :
          (m : Moved)
          → is_emitting (s.pcs i) ≡ false
          → is_emitting m.pc ≡ false
          → IsDelivered events texts (moved i m s)
      quiet-IsDelivered m off after = record {
        out = d.out;
        left = d.left;
        split = d.split;
        heard = d.heard;
        mine = λ j.
            put_cases (λ p. is_emitting p ≡ true → left_at p ≡ d.left) i j m.pc s.pcs
              (λ _ on. absurd (ground (arith, on, after))) λ _. d.mine j;
        whose = elim d.whose [
          | inl none_left ↦ inl none_left
          | inr (j, on) ↦ inr (
            j,
            put_cases (λ p. is_emitting p ≡ true) i j m.pc s.pcs
                (λ e. absurd (ground (arith, e, on, off))) λ _. on,
          )
        ];
      }

      pub invoked-IsDelivered :
          (c : MethodCall) (held : AccountsModule)
          → s.pcs i ≡ running c held
          → IsDelivered
              (events ++ left_at (invoke_step json wire c held s.world).pc)
              texts
              (moved i (invoke_step json wire c held s.world) s)
      unfolding invoke_step
      invoked-IsDelivered c held at =
          let here : in_registered (s.pcs i) ≡ true = ap in_registered at in
          let none_left : d.left ≡ [] = elim d.whose [
            | inl done ↦ done
            | inr (j, on) ↦ elim (Bool-cases (is_emitting (s.pcs i))) [
              | inl self ↦ absurd (ground (arith, self, ap is_emitting at))
              | inr off ↦ absurd (silent_else here j (λ e. ground (arith, e, on, off)) on)
            ]
          ] in
          let whole : events ≡ d.out = d.split ∙ (rw none_left (append-nil d.out)) in
          let m = invoke_step json wire c held s.world in
          record {
            out = d.out;
            left = left_at m.pc;
            split = ap (λ es. es ++ left_at m.pc) whole;
            heard = d.heard;
            mine = λ j.
                put_cases (λ p. is_emitting p ≡ true → left_at p ≡ left_at m.pc) i j m.pc s.pcs
                  (λ _ on. refl) λ apart on. absurd (silent_else here j apart on);
            whose = inr (
              i,
              put_cases (λ p. is_emitting p ≡ true) i i m.pc s.pcs (λ _. refl) λ n. absurd (n refl),
            );
          }

      pub emitted-IsDelivered :
          (m : Moved) (c : MethodCall) (reply : CStr) (event : Event) (es : List Event)
          → s.pcs i ≡ emitting c reply (event ∷ es)
          → m.pc ≡ emitting c reply es
          → Within (sent_of m.effects) (texts_of wire event ∷ [])
          → IsDelivered events (texts ++ sent_of m.effects) (moved i m s)
      emitted-IsDelivered m c reply event es at after one =
          let here : in_registered (s.pcs i) ≡ true = ap in_registered at in
          let first : event ∷ es ≡ d.left = sym (ap left_at at) ∙ d.mine i (ap is_emitting at) in
          record {
            out = d.out ++ event ∷ [];
            left = es;
            split =
                d.split
                ∙ ap (λ l. d.out ++ l) (sym first)
                ∙ sym (append_assoc d.out (event ∷ []) es);
            heard =
                subst (λ l. Within (texts ++ sent_of m.effects) l)
                  (sym (map-append (texts_of wire) d.out (event ∷ []))) (Within-append d.heard one);
            mine = λ j.
                put_cases (λ p. is_emitting p ≡ true → left_at p ≡ es) i j m.pc s.pcs
                  (λ _ on. ap left_at after) λ apart on. absurd (silent_else here j apart on);
            whose = inr (
              i,
              put_cases (λ p. is_emitting p ≡ true) i i m.pc s.pcs (λ _. ap is_emitting after)
                  λ n. absurd (n refl),
            );
          }

      pub ended-IsDelivered :
          (m : Moved) (c : MethodCall) (reply : CStr)
          → s.pcs i ≡ emitting c reply []
          → is_emitting m.pc ≡ false
          → IsDelivered events texts (moved i m s)
      ended-IsDelivered m c reply at after =
          let here : in_registered (s.pcs i) ≡ true = ap in_registered at in
          record {
            out = d.out;
            left = d.left;
            split = d.split;
            heard = d.heard;
            mine = λ j.
                put_cases (λ p. is_emitting p ≡ true → left_at p ≡ d.left) i j m.pc s.pcs
                  (λ _ on. absurd (ground (arith, on, after)))
                  λ apart on. absurd (silent_else here j apart on);
            whose = inl (sym (sym (ap left_at at) ∙ d.mine i (ap is_emitting at)));
          }
