-- ===== src/Provider.antt =====
-- rust-lib/src/module.rs: the module, the events, and how a method locks an account and replies.
-- A panic inside a method is not modelled, so that no method poisons a cell; a poisoned cell is part
-- of the state all the same.
pub mod Enacted
pub mod Logs
pub mod Updates
pub mod Held
pub mod Locked
pub mod Opened
pub mod Kept
pub mod Announced
pub mod Exported
use Prim.Native.String.{◌++◌}
use logos_accounts.Prelude.{
  ℕ, String, Bool, true, false, if◌then◌else◌, Option, none, some, List, [], ◌∷◌, Result, ok, err,
  map_err, ◌>>=◌,
}
use logos_accounts.Prelude.{◌++◌ as ◌+++◌}
use logos_accounts.Error.{Error, to_string}
use logos_accounts.Externals.{Externals}
use logos_accounts.EphemeralOpen.{OpenPlog, KeyGeneration}
use logos_accounts.Plog.{AccountSummary, PlogPathValue}
use logos_accounts.Request.{FromStr}
use logos_accounts.Delegations.{PathDelegation}
use logos_accounts.Account.{
  Ambient, PlogAccount, UpdateChallenge, UpdateKind, entry_update, delegate, revoke,
}
use logos_accounts.Account as Account
use logos_accounts.Account.Preparing as Preparing
use logos_accounts.Account.Committing as Committing
use logos_accounts.Cache.{AccountCache, Ref, Cell, new_cache, get_cell}
use logos_accounts.Cache as Cache
use logos_accounts.Cache.View.{write_cell}

pub data Event : Type 0 where
  account_created account_updated error : String → Event
  path_delegated path_revoked : String → String → Event

-- `serde_json`: the text of an object with one field, the text of a value (or the text of the
-- serializer's error), and the text of a `PoisonError`.
pub record Json : Type 0 where
  pub object_text : String → String → String
  pub flag_text : String → Bool → String
  pub count_text : String → ℕ → String
  pub summary_text : AccountSummary → Result String String
  pub challenge_text : UpdateChallenge → Result String String
  pub delegations_text : List PathDelegation → Result String String
  pub value_text : PlogPathValue → Result String String
  pub poison_text : String

-- The text that a method returns, and the events that it emits on the way, in order.
pub record Output : Type 0 where
  pub reply : String
  pub events : List Event

module _ ⦃x : Externals⦄ where
  -- The fields of `AccountsModuleImpl`; the runtime has no state of its own.
  pub record AccountsModule : Type 0 where
    pub cache : AccountCache

  abbrev pub Handler : Type 0
  Handler = AccountsModule → Output × AccountsModule

  unfoldable pub default_module : AccountsModule
  unfolding new_cache
  default_module = record { cache = new_cache }

  unfoldable pub entry : String → AccountsModule → Result Ref String
  entry vlad m = map_err to_string (Cache.get vlad m.cache)

module _ ⦃x : Externals⦄ (json : Json) where
  open json use {
    object_text, flag_text, count_text, summary_text, challenge_text, delegations_text, value_text,
    poison_text,
  }

  abbrev pub silent : String → Output
  silent t = record { reply = t; events = [] }

  abbrev pub announce : List Event → Output → Output
  announce es o = record { reply = o.reply; events = es +++ o.events }

  unfoldable pub err_json : String → Output
  err_json m = record { reply = object_text "error" m; events = error m ∷ [] }

  -- `unwrap_or_else(|e| Self::err_json(e.to_string()))`
  unfoldable pub text_or_error : Result String String → Output
  unfolding err_json
  text_or_error (ok t) = silent t
  text_or_error (err e) = err_json e

  unfoldable pub summary_json : AccountSummary → Output
  unfolding text_or_error
  summary_json summary = text_or_error (summary_text summary)

  -- The account behind a reference, unless its lock is poisoned. References of the map never
  -- dangle.
  unfoldable pub lock_cell : Option Cell → Result PlogAccount String
  lock_cell none = err "dangling reference"
  lock_cell (some c) =
      if c.poisoned then err ("cache entry lock poisoned: " ++ poison_text) else ok c.account

  unfoldable pub locked : String → AccountsModule → Result (Ref × PlogAccount) String
  unfolding entry lock_cell
  locked vlad m =
      entry vlad m >>= λ r. lock_cell (get_cell r m.cache.cells) >>= λ account. ok (r, account)

  -- What a method does to the account that it has locked.
  abbrev pub store : Ref → PlogAccount → AccountsModule → AccountsModule
  store r account m = record m {
    cache = write_cell r (record { account = account; poisoned = false }) m.cache;
  }

  unfoldable pub run_on :
      Result (Ref × PlogAccount) String → (PlogAccount → Output × PlogAccount) → Handler
  unfolding err_json
  run_on (err e) f m = (err_json e, m)
  run_on (ok (r, account)) f m = let out = f account in (out.0, store r out.1 m)

  unfoldable pub with_account_mut : String → (PlogAccount → Output × PlogAccount) → Handler
  unfolding locked run_on
  with_account_mut vlad f m = run_on (locked vlad m) f m

  -- The methods that only read the account.
  abbrev pub reading : (PlogAccount → Output) → PlogAccount → Output × PlogAccount
  reading f account = (f account, account)
