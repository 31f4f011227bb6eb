-- ===== src/Request.antt =====
-- rust-lib/src/api.rs, the request types of `prepare_update` and their translation.
pub mod Operations
use Prim.Native.String.{◌++◌}
use logos_accounts.Prelude.{
  String, Bool, Option, none, some, List, [], ◌∷◌, Result, ok, err, map_err, collect, ◌>>=◌, ◌==◌,
  ◌||◌, string_eq, bytes_eq, if◌then◌else◌,
}
use logos_accounts.Prelude.Text.{codes, trim}
use logos_accounts.Error.{Error, invalid_op, encoding}
use logos_accounts.Externals.{Externals, Key, Script, Entry, OpParams, OpParamsOf, code}
use logos_accounts.Encoding.{decode_bytes_multibase}
use logos_accounts.EntryUpdate.{locks_replacing_path}
use logos_accounts.Plog.{parse_key}

pub data PlogValue : Type 0 where
  str payload : String → PlogValue

pub data PlogOp : Type 0 where
  noop delete : String → PlogOp
  update : String → PlogValue → PlogOp

pub record LockScriptJson : Type 0 where
  pub path : String
  pub source : String

pub data LockSpec : Type 0 where
  keyword : String → LockSpec
  replace : List LockScriptJson → LockSpec
  upsert : LockScriptJson → LockSpec
  remove : String → LockSpec

abbrev pub default_lock_spec : LockSpec
default_lock_spec = keyword "inherit"

pub record EntryUpdateRequest : Type 0 where
  pub locks : LockSpec
  pub ops : List PlogOp
  pub sign_as : Option String

-- `serde_json::from_str` at the request type, by the derived `Deserialize`.
abbrev pub FromStr : Type 0
FromStr = String → Result EntryUpdateRequest String

unfoldable pub parse_entry_update_request : FromStr → String → Result EntryUpdateRequest Error
parse_entry_update_request from_str s = map_err (λ e. encoding ("request_json: " ++ e)) (from_str s)

module _ ⦃x : Externals⦄ where
  open x use {str_debug}

  unfoldable pub update_params : Key → PlogValue → Result OpParams Error
  update_params key (str s) = ok (OpParamsOf.use_str key s)
  update_params key (payload data_multibase) =
      decode_bytes_multibase data_multibase >>= λ bytes. ok (OpParamsOf.use_bin key bytes)

  unfoldable pub into_op_params : PlogOp → Result OpParams Error
  unfolding update_params
  into_op_params (noop key) = parse_key key >>= λ k. ok (OpParamsOf.noop k)
  into_op_params (delete key) = parse_key key >>= λ k. ok (OpParamsOf.delete k)
  into_op_params (update key value) = parse_key key >>= λ k. update_params k value

  unfoldable pub plog_ops_to_params : List PlogOp → Result (List OpParams) Error
  unfolding into_op_params
  plog_ops_to_params ops = collect into_op_params ops

  -- The trimmed text is empty or `[]`.
  unfoldable pub is_blank : String → Bool
  unfolding trim
  is_blank s = let t = trim (codes s) in t == [] || t == b'[' ∷ b']' ∷ []

  -- `serde_json::from_str` at `Vec<PlogOp>` is the argument.
  unfoldable pub parse_ops_json :
      (String → Result (List PlogOp) String) → String → Result (List OpParams) Error
  unfolding is_blank plog_ops_to_params
  parse_ops_json from_str ops_json =
      if is_blank ops_json
      then ok []
      else map_err encoding (from_str ops_json) >>= plog_ops_to_params

  unfoldable pub lock_script_from_json : LockScriptJson → Result Script Error
  lock_script_from_json s = parse_key s.path >>= λ path. ok (code path s.source)

  unfoldable pub lock_spec_to_scripts : Entry → LockSpec → Result (Option (List Script)) Error
  unfolding lock_script_from_json
  lock_spec_to_scripts head (keyword k) =
      if k == "inherit"
      then ok none
      else err (
          invalid_op
            ("unknown locks keyword " ++ (str_debug k ++ "; use \"inherit\" or an object")))
  lock_spec_to_scripts head (replace scripts) =
      collect lock_script_from_json scripts >>= λ built. ok (some built)
  lock_spec_to_scripts head (upsert lock) = parse_key lock.path >>= λ path.
      lock_script_from_json lock >>= λ script.
      ok (some (locks_replacing_path head path (some script)))
  lock_spec_to_scripts head (remove removed) =
      parse_key removed >>= λ path. ok (some (locks_replacing_path head path none))
