-- ===== src/EphemeralOpen/Root.antt =====
-- What the opening of a log gets to see of the root key.
use logos_accounts.Prelude.{ℕ, ◌≡◌, ◌≢◌, Bool-cases, false, inl, inr, ok, >>=-eq-ok, arith}
use logos_accounts.Externals.{Externals, Key, Log, Multikey, Multisig, Bytes, key_instance}
use logos_accounts.Externals.Laws.{PublicLaws}
use logos_accounts.Config.{default_open_config, pubkey_key_path}
use logos_accounts.EphemeralOpen.{
  OpenPlog, KeyGeneration, KeyManager, MultiSigner, ensure_public_multikey, new_helper, key_manager,
  multi_signer, open_plog_with_external_pubkey, EphemeralOpenHelper, get_root_or_err,
}

module _ ⦃x : Externals⦄ where
  open x use {Codec, is_secret_key, to_public_key, key_eq}

  -- The key manager answers for `/pubkey` alone and with a public key, and the signer signs with no
  -- stored key.
  pub record IsPublicOnly (keys : KeyManager) (signer : MultiSigner) : Type 0 where
    pub only_root :
        (path : Key) (codec : Codec) (threshold limit : ℕ) (k : Multikey)
        → keys.get_key path codec threshold limit ≡ ok k
        → (path ≡ pubkey_key_path) × (is_secret_key k ≡ ok false)
    pub never_signs :
        (path : Key) (bytes : Bytes) (s : Multisig) → signer.try_sign path bytes ≢ ok s

  ensure_public_multikey-IsPublic :
      PublicLaws
      → (mk pk : Multikey) → ensure_public_multikey mk ≡ ok pk
      → is_secret_key pk ≡ ok false
  unfolding ensure_public_multikey
  ensure_public_multikey-IsPublic laws mk pk h =
      let (secret, known, rest) = >>=-eq-ok (is_secret_key mk) _ h in
      elim (Bool-cases secret) [
        | inl is_so ↦ laws.public mk pk (ground (arith, rest, is_so))
        | inr is_not ↦
            let same : mk ≡ pk = ground (arith, rest, is_not) in rw (← same) (rw is_not at known)
      ]

  helper-IsPublicOnly :
      PublicLaws
      → (gen : KeyGeneration) (root : Multikey) (helper : EphemeralOpenHelper)
      → new_helper root ≡ ok helper
      → IsPublicOnly (key_manager helper) (multi_signer gen helper)
  unfolding new_helper key_manager multi_signer get_root_or_err
  helper-IsPublicOnly laws gen root helper h =
      let (pk, public, built) = >>=-eq-ok (ensure_public_multikey root) _ h in
      record {
        only_root = λ path codec threshold limit k found.
            let is : helper.root_pubkey ≡ pk = ground (arith, built) in
            let at_root : path ≡ pubkey_key_path =
              ground (arith, found, key_eq.decides path pubkey_key_path) in
            let same : helper.root_pubkey ≡ k =
              ground (arith, found, key_eq.decides path pubkey_key_path) in
            (at_root, rw (← same, is) (ensure_public_multikey-IsPublic laws root pk public));
        never_signs = λ path bytes s e. cc;
      }

  -- Where an opening with an external root key succeeds, it is `open_plog` with the default
  -- configuration that made the log. It was given a key manager that answers for `/pubkey` alone and
  -- with a key that is not secret, also if the key passed in was, and a signer that signs with no
  -- stored key. This uses that `to_public_key` returns no secret key.
  pub open_plog_with_external_pubkey-IsPublicOnly :
      PublicLaws
      → (open_plog : OpenPlog) (gen : KeyGeneration) (root : Multikey) (log : Log)
      → open_plog_with_external_pubkey open_plog gen root ≡ ok log
      → (keys : KeyManager) × (signer : MultiSigner) × IsPublicOnly keys signer
        × (open_plog default_open_config keys signer ≡ ok log)
  unfolding open_plog_with_external_pubkey
  open_plog_with_external_pubkey-IsPublicOnly laws open_plog gen root log h =
      let (helper, made, opened) = >>=-eq-ok (new_helper root) _ h in
      (
        key_manager helper,
        multi_signer gen helper,
        helper-IsPublicOnly laws gen root helper made,
        opened,
      )
