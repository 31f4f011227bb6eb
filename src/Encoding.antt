-- ===== src/Encoding.antt =====
-- rust-lib/src/encoding.rs (the multibase and binary helpers) and rust-lib/src/vlad_hash.rs.
pub mod Hex
use logos_accounts.Prelude.{String, Result, ok, false, map_err, ◌>>=◌}
use logos_accounts.Error.{Error, encoding, plog}
use logos_accounts.Externals.{Externals, Bytes, Log, Vlad, Cid, Multikey, Multisig}

module _ ⦃x : Externals⦄ where
  open x use {
    base64_url, multibase_encode, multibase_decode, encoded_log, encoded_log_try_from, log_to_bytes,
    log_try_from, encoded_vlad, encoded_vlad_try_from, encoded_cid, encoded_multikey,
    encoded_multikey_try_from, encoded_multisig, encoded_multisig_try_from,
  }

  unfoldable pub encode_bytes_multibase : Bytes → String
  encode_bytes_multibase bytes = multibase_encode base64_url bytes

  unfoldable pub decode_bytes_multibase : String → Result Bytes Error
  decode_bytes_multibase s = map_err encoding (multibase_decode s false) >>= λ decoded. ok decoded.1

  unfoldable pub encode_plog : Log → String
  encode_plog log = encoded_log log

  unfoldable pub decode_plog : String → Result Log Error
  decode_plog s = map_err encoding (encoded_log_try_from s)

  unfoldable pub plog_to_bytes : Log → Bytes
  plog_to_bytes log = log_to_bytes log

  unfoldable pub plog_from_bytes : Bytes → Result Log Error
  plog_from_bytes bytes = map_err plog (log_try_from bytes)

  unfoldable pub encode_vlad : Vlad → String
  encode_vlad vlad = encoded_vlad vlad

  unfoldable pub decode_vlad : String → Result Vlad Error
  decode_vlad s = map_err encoding (encoded_vlad_try_from s)

  unfoldable pub encode_cid : Cid → String
  encode_cid cid = encoded_cid cid

  unfoldable pub encode_multikey : Multikey → String
  encode_multikey mk = encoded_multikey mk

  unfoldable pub decode_multikey : String → Result Multikey Error
  decode_multikey s = map_err encoding (encoded_multikey_try_from s)

  unfoldable pub encode_multisig : Multisig → String
  encode_multisig sig = encoded_multisig sig

  unfoldable pub decode_multisig : String → Result Multisig Error
  decode_multisig s = map_err encoding (encoded_multisig_try_from s)
