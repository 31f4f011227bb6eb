-- ===== src/Error.antt =====
-- rust-lib/src/error.rs: the crate's error type and its texts. A library's error value is only
-- ever displayed, so that it stands here as its text.
use Prim.Native.String.{String, ◌++◌}

pub data Error : Type 0 where
  bs open_error update plog multikey multisig multicid multihash multicodec io : String → Error
  unsupported_codec : String → Error
  message : String → Error
  no_account : Error
  account_not_cached : String → Error
  plog_verify_failed : String → Error
  path_not_found : String → Error
  encoding : String → Error
  invalid_op : String → Error
  path_not_delegated : String → Error
  path_escape : String → String → Error
  challenge_not_found : String → Error
  head_mismatch : String → String → Error

-- `to_string` of `#[derive(thiserror::Error)]`.
unfoldable pub to_string : Error → String
to_string (bs e) = e
to_string (open_error e) = e
to_string (update e) = e
to_string (plog e) = e
to_string (multikey e) = e
to_string (multisig e) = e
to_string (multicid e) = e
to_string (multihash e) = e
to_string (multicodec e) = e
to_string (io e) = e
to_string (unsupported_codec c) =
    "Unsupported codec: " ++ (c ++ " (secp256k1 only for ephemeral open)")
to_string (message m) = m
to_string no_account = "no account loaded: call create_account or import_plog first"
to_string (account_not_cached h) =
    "no cached p-log for this VLAD (hash " ++ (h ++ "): call create_account or import_plog first")
to_string (plog_verify_failed m) = "p-log verification failed: " ++ m
to_string (path_not_found p) = "no value at path " ++ p
to_string (encoding m) = "encoding error: " ++ m
to_string (invalid_op m) = "invalid operation: " ++ m
to_string (path_not_delegated p) = "path not delegated: " ++ p
to_string (path_escape b p) = "operation path escapes delegated branch " ++ (b ++ (": " ++ p))
to_string (challenge_not_found c) = "unknown or expired path-update challenge: " ++ c
to_string (head_mismatch e c) =
    "p-log head changed since prepare (expected " ++ (e ++ (", current " ++ (c ++ ")")))
