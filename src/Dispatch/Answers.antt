-- ===== src/Dispatch/Answers.antt =====
-- Which calls are answered.
use logos_accounts.Prelude.{
  ◌≤◌, String, ◌≡◌, refl, ◌≢◌, Bool-cases, inl, inr, Option, none, some, List, ltb, length, arith,
}
use logos_accounts.Externals.{Externals}
use logos_accounts.Provider.{Json, AccountsModule}
use logos_accounts.Dispatch.{
  Method, Arg, Surroundings, arity, method_of, dispatch_known, dispatch_impl, instance_or_default,
}

-- The name is that of a method, and there are at least as many arguments as it takes.
pub record IsAnswerable (name : String) (args : List Arg) : Type 0 where
  pub method : Method
  pub named : method_of name ≡ some method
  pub enough : arity method ≤ length args

module _ ⦃x : Externals⦄ (json : Json) where
  known_answered :
      (w : Surroundings) (k : Method) (args : List Arg) (m : AccountsModule)
      → arity k ≤ length args
      → (dispatch_known json w (some k) args m).0 ≢ none
  unfolding dispatch_known
  known_answered w k args m h e = ground arith

  known_refused :
      (w : Surroundings) (name : String) (o : Option Method) (args : List Arg) (m : AccountsModule)
      → method_of name ≡ o
      → ¬ IsAnswerable name args
      → dispatch_known json w o args m ≡ (none, m)
  unfolding dispatch_known
  known_refused w name none args m e h = refl
  known_refused w name (some k) args m e h = elim (Bool-cases (ltb (length args) (arity k))) [
    | inl few ↦ rw few refl
    | inr enough ↦ absurd (h (record { method = k; named = e; enough = ground (arith, enough) }))
  ]

  -- A call is answered if its name is that of a method and it has as many arguments as the method
  -- takes, or more. Any other call is not answered, and leaves the module as it was.
  pub dispatch_impl-IsAnswerable :
      (w : Surroundings) (name : String) (args : List Arg) (slot : Option AccountsModule)
      → (IsAnswerable name args → (dispatch_impl json w name args slot).0 ≢ none)
        × (¬ IsAnswerable name args
            → dispatch_impl json w name args slot ≡ (none, instance_or_default slot))
  unfolding dispatch_impl
  dispatch_impl-IsAnswerable w name args slot = (
    (λ a. rw a.named (known_answered w a.method args (instance_or_default slot) a.enough)),
    known_refused w name (method_of name) args (instance_or_default slot) refl,
  )
