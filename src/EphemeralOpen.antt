-- ===== src/EphemeralOpen.antt =====
-- rust-lib/src/ephemeral_open.rs: the one-shot key manager and signer that opens a log.
pub mod Root
use Prim.Native.String.{◌++◌}
use logos_accounts.Prelude.{ℕ, Result, ok, err, ◌>>=◌, ◌==◌, if◌then◌else◌}
use logos_accounts.Error.{Error, invalid_op, unsupported_codec}
use logos_accounts.Externals.{Externals, Key, Log, Vlad, Multikey, Multisig, Bytes, key_instance}
use logos_accounts.Config.{OpenConfig, pubkey_key_path, default_open_config}

module _ ⦃x : Externals⦄ where
  open x use {
    Codec, key_to_string, is_secret_key, to_public_key, codec_debug, codec_eq, secp256k1_priv,
  }

  unfoldable pub ensure_public_multikey : Multikey → Result Multikey Error
  ensure_public_multikey mk =
      is_secret_key mk >>= λ secret. if secret then to_public_key mk else ok mk

  unfoldable pub require_secp256k1_priv : Codec → Result (Unit {0}) Error
  require_secp256k1_priv codec =
      if codec_eq.beq codec secp256k1_priv
      then ok tt
      else err (unsupported_codec (codec_debug codec))

  pub record EphemeralOpenHelper : Type 0 where
    pub root_pubkey : Multikey

  unfoldable pub new_helper : Multikey → Result EphemeralOpenHelper Error
  unfolding ensure_public_multikey
  new_helper root = ensure_public_multikey root >>= λ pk. ok (record { root_pubkey = pk })

  -- A one-shot signer: `sign_once` of a fresh secret key.
  abbrev pub SignOnce : Type 0
  SignOnce = Bytes → Result Multisig Error

  -- The random generation of a secret key with a threshold and a limit, and its signing view.
  pub record KeyGeneration : Type 0 where
    pub generate : Codec → ℕ → ℕ → Result Multikey Error
    pub sign : Multikey → SignOnce

  unfoldable pub prepare_ephemeral_inner :
      KeyGeneration → Codec → ℕ → ℕ → Result (Multikey × SignOnce) Error
  unfolding require_secp256k1_priv
  prepare_ephemeral_inner gen codec threshold limit = require_secp256k1_priv codec >>= λ _.
      gen.generate codec threshold limit >>= λ secret_key.
      to_public_key secret_key >>= λ public_key. ok (public_key, gen.sign secret_key)

  unfoldable pub get_root_or_err : EphemeralOpenHelper → Key → Result Multikey Error
  get_root_or_err helper key_path =
      if key_path == pubkey_key_path
      then ok helper.root_pubkey
      else err (
          invalid_op (
            "ephemeral open helper has no long-lived key for "
            ++ (key_to_string key_path ++ " (only /pubkey is injected)")))

  -- `AsyncKeyManager` and `AsyncMultiSigner`, as `open_plog` sees them.
  pub record KeyManager : Type 0 where
    pub get_key : Key → Codec → ℕ → ℕ → Result Multikey Error
    pub preprocess_vlad : Vlad → Result (Unit {0}) Error

  pub record MultiSigner : Type 0 where
    pub try_sign : Key → Bytes → Result Multisig Error
    pub prepare_ephemeral_signing : Codec → ℕ → ℕ → Result (Multikey × SignOnce) Error

  unfoldable pub key_manager : EphemeralOpenHelper → KeyManager
  unfolding get_root_or_err
  key_manager helper = record {
    get_key = λ key_path codec threshold limit. get_root_or_err helper key_path;
    preprocess_vlad = λ vlad. ok tt;
  }

  unfoldable pub multi_signer : KeyGeneration → EphemeralOpenHelper → MultiSigner
  unfolding prepare_ephemeral_inner
  multi_signer gen helper = record {
    try_sign = λ key_path bytes. err (
        invalid_op (
          "ephemeral open helper cannot try_sign("
          ++ (key_to_string key_path ++ "); long-lived keys are external")));
    prepare_ephemeral_signing = prepare_ephemeral_inner gen;
  }

  -- `bs::ops::open::open_plog`.
  abbrev pub OpenPlog : Type 0
  OpenPlog = OpenConfig → KeyManager → MultiSigner → Result Log Error

  unfoldable pub open_plog_with_external_pubkey :
      OpenPlog → KeyGeneration → Multikey → Result Log Error
  unfolding new_helper key_manager multi_signer
  open_plog_with_external_pubkey open_plog gen root_pubkey = new_helper root_pubkey >>= λ helper.
      open_plog default_open_config (key_manager helper) (multi_signer gen helper)
