-- ===== src/Scaffold/Answers.antt =====
-- What the host gets for a call of a method.
use logos_accounts.Prelude.{
  String, ◌≡◌, refl, ap, inl, inr, false, Option, none, some, Option-cases, List, ◌++◌, arith,
}
use logos_accounts.Externals.{Externals}
use logos_accounts.Provider.{Json, Output, AccountsModule}
use logos_accounts.Dispatch.{Arg, Surroundings, dispatch_impl, instance_or_default}
use logos_accounts.Dispatch.Answers.{IsAnswerable, dispatch_impl-IsAnswerable}
use logos_accounts.Scaffold.Emit.{CStr, Effect, Wire, deliver, has_nul, to_c_string}
use logos_accounts.Scaffold.{
  Statics, ensure_ready, logos_module_dispatch, dispatch_ready, dispatch_registered, answered,
  read_args, reply_text,
}
use logos_accounts.Scaffold.Ready.{ensure_ready-IsPrepared}

-- A JSON text has no NUL character: `serde_json` escapes it.
pub record TextLaws (wire : Wire) : Type 0 where
  pub no_nul : (s : String) → has_nul (wire.string_text s) ≡ false

-- The call has a name, its arguments are absent or an array, and the method with that name takes at
-- most so many.
pub record IsCall (wire : Wire) (method args_json : CStr) : Type 0 where
  pub name : String
  pub args : List Arg
  pub named : method ≡ some name
  pub read : read_args wire args_json ≡ some args
  pub answerable : IsAnswerable name args

module _ ⦃x : Externals⦄ (json : Json) (wire : Wire) where
  -- The method was performed on the module, and the host got its reply and, after the effects of
  -- `ensure_ready`, its events.
  pub record Performs (w : Surroundings) (name : String) (args : List Arg) (s : Statics)
      (out : CStr × List Effect × Statics) : Type 0 where
    pub output : Output
    pub later : AccountsModule
    pub performed : dispatch_impl json w name args s.instance_slot ≡ (some output, later)
    pub replied : out.0 ≡ some (wire.string_text output.reply)
    pub effects : out.1 ≡ (ensure_ready false s).0 ++ deliver wire s.callback output.events
    pub stored : out.2.instance_slot ≡ some later

  -- A call was refused: a null pointer is returned, and the module is as it was.
  pub record Refuses (s : Statics) (out : CStr × List Effect × Statics) : Type 0 where
    pub null : out.0 ≡ none
    pub same : instance_or_default out.2.instance_slot ≡ instance_or_default s.instance_slot

  performs :
      TextLaws wire
      → (w : Surroundings) (name : String) (args : List Arg) (s : Statics) → IsAnswerable name args
      → Performs w name args s (dispatch_ready json wire w name (some args) s)
  unfolding dispatch_ready dispatch_registered answered reply_text to_c_string dispatch_impl
      instance_or_default
  performs laws w name args s a =
      let p = ensure_ready-IsPrepared false s in
      elim (Option-cases (dispatch_impl json w name args s.instance_slot).0) [
        | inl silent ↦
            absurd ((dispatch_impl-IsAnswerable json w name args s.instance_slot).0 a silent)
        | inr (output, e) ↦
            rw (p.registered, p.instance_slot, p.callback, e, laws.no_nul output.reply)
              (record {
                output = output;
                later = (dispatch_impl json w name args s.instance_slot).1;
                performed = ap (λ o. (o, (dispatch_impl json w name args s.instance_slot).1)) e;
                replied = refl;
                effects = refl;
                stored = refl;
              })
      ]

  dispatch_ready-Refuses :
      (w : Surroundings) (name : String) (args : List Arg) (s : Statics)
      → ¬ IsAnswerable name args
      → Refuses s (dispatch_ready json wire w name (some args) s)
  unfolding dispatch_ready dispatch_registered answered reply_text instance_or_default
  dispatch_ready-Refuses w name args s h =
      let p = ensure_ready-IsPrepared false s in
      let refused =
        (dispatch_impl-IsAnswerable json w name args (some (instance_or_default s.instance_slot))).1
          h in
      rw (p.registered, p.instance_slot, refused) (record { null = refl; same = refl })

  Refuses-read_args :
      (w : Surroundings) (name : String) (args_json : CStr) (read : Option (List Arg)) (s : Statics)
      → read_args wire args_json ≡ read
      → ¬ IsCall wire (some name) args_json
      → Refuses s (dispatch_ready json wire w name read s)
  unfolding dispatch_ready
  Refuses-read_args w name args_json none s e h = record { null = refl; same = refl }
  Refuses-read_args w name args_json (some args) s e h =
      dispatch_ready-Refuses w name args s
        λ a. h (record { name = name; args = args; named = refl; read = e; answerable = a })

  -- Where JSON texts have no NUL: a dispatch with a name and with arguments, absent or an array,
  -- that are enough for the method of that name performs the method on the module, returns its
  -- reply as a JSON text, and delivers its events to the callback, in order, after the hook. Any
  -- other dispatch returns a null pointer and leaves the module as it was.
  pub logos_module_dispatch-Performs :
      TextLaws wire
      → (w : Surroundings) (method args_json : CStr) (s : Statics)
      → let out = logos_module_dispatch json wire w method args_json s in
        ((c : IsCall wire method args_json) → Performs w c.name c.args s out)
        × (¬ IsCall wire method args_json → Refuses s out)
  unfolding logos_module_dispatch
  logos_module_dispatch-Performs laws w none args_json s =
      ((λ c. absurd (ground (arith, c.named))), λ h. record { null = refl; same = refl })
  logos_module_dispatch-Performs laws w (some name) args_json s = (
    (λ c.
        let is : name ≡ c.name = ground (arith, c.named) in
        rw (is, c.read) (performs laws w c.name c.args s c.answerable)),
    Refuses-read_args w name args_json (read_args wire args_json) s refl,
  )
