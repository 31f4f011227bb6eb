-- ===== src/Config.antt =====
-- rust-lib/src/config.rs: the lock and unlock scripts, the open and update configurations, and the
-- paths of delegated branches.
pub mod Branch
use Prim.Native.String.{◌++◌}
use logos_accounts.Prelude.{
  Option, none, some, String, List, Result, ok, err, map_err, ◌==◌, string_eq, ◌>>=◌, if◌then◌else◌,
  Bool,
}
use logos_accounts.Error.{Error, invalid_op}
use logos_accounts.Externals.{Externals, Key, Script, OpParams, code}

abbrev pub default_entry_lock : String
default_entry_lock = "check_signature(\"/pubkey\", \"/entry/\")"

abbrev pub default_entry_unlock : String
default_entry_unlock = "push(\"/entry/\"); push(\"/entry/proof\")"

-- The test `as_str() == "/"`.
unfoldable pub is_root : String → Bool
is_root s = s == "/"

module _ ⦃x : Externals⦄ where
  open x use {
    Codec, key_try_from, key_default, as_str, key_to_string, is_branch, parent_of, pubkey_key,
    secp256k1_priv,
  }

  -- What `open::Config::builder()` is given: the codecs of the VLAD key, of the first entry's key
  -- and of `/pubkey`, and the two scripts.
  pub record OpenConfig : Type 0 where
    pub vlad_codec : Codec
    pub first_entry_codec : Codec
    pub pubkey_codec : Codec
    pub lock : Script
    pub unlock : Script

  -- What `update::Config::builder()` is given; `additional_ops` is not always called.
  pub record UpdateConfig : Type 0 where
    pub unlock : Script
    pub entry_signing_key : Key
    pub additional_ops : Option (List OpParams)

  unfoldable pub delegated_lock_code : Key → String
  delegated_lock_code branch = "check_signature(\"" ++ (as_str branch ++ "pubkey\", \"/entry/\")")

  unfoldable pub default_unlock_script : Script
  default_unlock_script = code key_default default_entry_unlock

  unfoldable pub default_open_config : OpenConfig
  default_open_config = record {
    vlad_codec = secp256k1_priv;
    first_entry_codec = secp256k1_priv;
    pubkey_codec = secp256k1_priv;
    lock = code key_default default_entry_lock;
    unlock = code key_default default_entry_unlock;
  }

  unfoldable pub default_update_config : UpdateConfig
  default_update_config = record {
    unlock = default_unlock_script;
    entry_signing_key = pubkey_key;
    additional_ops = none;
  }

  unfoldable pub update_config_with_ops : List OpParams → UpdateConfig
  update_config_with_ops ops = record {
    unlock = default_unlock_script;
    entry_signing_key = pubkey_key;
    additional_ops = some ops;
  }

  unfoldable pub update_config_with_signing_key : Key → List OpParams → UpdateConfig
  update_config_with_signing_key key ops = record {
    unlock = default_unlock_script;
    entry_signing_key = key;
    additional_ops = some ops;
  }

  unfoldable pub delegated_branch_lock_script : Key → Script
  delegated_branch_lock_script branch = code branch (delegated_lock_code branch)

  unfoldable pub pubkey_key_path : Key
  pubkey_key_path = pubkey_key

  unfoldable pub delegate_pubkey_key : Key → Result Key Error
  delegate_pubkey_key branch =
      if is_branch branch
      then map_err invalid_op (key_try_from (as_str branch ++ "pubkey"))
      else err (
          invalid_op
            ("delegation path must be a branch (trailing '/'), got " ++ key_to_string branch))

  -- The tests of `parse_branch_path` on a key that parsed.
  unfoldable pub check_branch : String → Key → Result Key Error
  unfolding is_root
  check_branch path key =
      if is_branch key
      then (if is_root (as_str key)
          then err (invalid_op "cannot delegate the root path '/'")
          else ok key)
      else err (invalid_op ("delegation path must be a branch ending with '/', got " ++ path))

  unfoldable pub parse_branch_path : String → Result Key Error
  unfolding check_branch
  parse_branch_path path =
      map_err (λ e. invalid_op ("invalid key path " ++ (path ++ (": " ++ e)))) (key_try_from path)
      >>= check_branch path

  unfoldable pub key_under_branch : Key → Key → Bool
  key_under_branch op_key branch = parent_of branch op_key
