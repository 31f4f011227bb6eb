-- ===== src/Convert.antt =====
-- rust-lib/src/convert.rs: keys and signatures from raw bytes and back.
use Prim.Native.String.{◌++◌}
use logos_accounts.Prelude.{ℕ, String, not, Result, ok, err, ◌>>=◌, length, nat_beq, if◌then◌else◌}
use logos_accounts.Error.{Error, message}
use logos_accounts.Externals.{Externals, Bytes, Multikey, Multisig}

abbrev pub prehash_len : ℕ
prehash_len = 32

module _ ⦃x : Externals⦄ where
  open x use {sha256, is_secret_key, to_public_key}

  -- The builders for `Secp256K1Pub` keys and `Es256KMsig` signatures, `data_view()?.key_bytes()?`,
  -- and the text of a `usize`.
  pub record KeyFormats : Type 0 where
    pub build_public : Bytes → Result Multikey Error
    pub key_bytes : Multikey → Result Bytes Error
    pub build_signature : Bytes → Result Multisig Error
    pub usize_text : ℕ → String

  unfoldable pub sha256_prehash : Bytes → Bytes
  sha256_prehash bytes = sha256 bytes

  module _ (formats : KeyFormats) where
    open formats use {build_public, key_bytes, build_signature, usize_text}

    unfoldable pub sec1_to_multikey : Bytes → Result Multikey Error
    sec1_to_multikey sec1 =
        if not (nat_beq (length sec1) 33)
        then err (
            message (
              "expected 33-byte compressed SEC1 public key, got "
              ++ (usize_text (length sec1) ++ " bytes")))
        else build_public sec1

    -- The public key of a secret one, and any other key itself.
    unfoldable pub public_of : Multikey → Result Multikey Error
    public_of mk = is_secret_key mk >>= λ secret. if secret then to_public_key mk else ok mk

    unfoldable pub multikey_to_sec1 : Multikey → Result Bytes Error
    unfolding public_of
    multikey_to_sec1 mk = public_of mk >>= key_bytes

    unfoldable pub signature_bytes_to_multisig : Bytes → Result Multisig Error
    signature_bytes_to_multisig sig_rs =
        if not (nat_beq (length sig_rs) 64)
        then err (
            message (
              "expected 64-byte ECDSA signature (r||s), got "
              ++ (usize_text (length sig_rs) ++ " bytes")))
        else build_signature sig_rs
