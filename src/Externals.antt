-- ===== src/Externals.antt =====
-- The libraries that the crate calls, as an interface: their types, the operations that the crate
-- uses and, where a record below is taken as a hypothesis, what their documentation promises.
-- A call followed by `?` returns the crate's error, the conversion included; a call whose error is
-- only displayed returns that text.
mod Data
pub mod Laws
pub mod EntryLaws
pub use Data.{
  Bytes, Value, str, data_value, nil, ScriptOf, code, other, OpId, OpParamsOf, EntryDraft,
  OpBuilder,
}
use logos_accounts.Prelude.{ℕ, Bool, String, List, Option, Result, Eq}
use logos_accounts.Error.{Error}

pub record Externals : Type 1 where
  -- provenance-log
  pub Key : Type 0
  pub OtherScript : Type 0
  pub Entry : Type 0
  pub MutableEntry : Type 0
  pub Log : Type 0
  pub Op : Type 0
  -- multicid, multikey, multisig, multicodec, multibase
  pub Vlad : Type 0
  pub Cid : Type 0
  pub Multikey : Type 0
  pub Multisig : Type 0
  pub Codec : Type 0
  pub Base : Type 0
  -- the parameters of `OpParams::KeyGen` and `OpParams::CidGen`
  pub KeyGen : Type 0
  pub CidGen : Type 0
  -- `Key`
  pub key_eq : Eq Key
  pub key_try_from : String → Result Key String
  pub key_default : Key
  pub as_str : Key → String
  pub key_to_string : Key → String
  pub is_branch : Key → Bool
  pub parent_of : Key → Key → Bool
  -- `PubkeyParams::KEY_PATH`
  pub pubkey_key : Key
  -- `{:?}` of a script that is not `Code`, and `Script::path`
  pub other_debug : OtherScript → String
  pub script_path : ScriptOf Key OtherScript → Key
  -- `Log`
  pub log_vlad : Log → Vlad
  pub log_head : Log → Cid
  pub verify : Log → List (Result (ℕ × Entry × List (Key × Value)) String)
  pub log_seqno : Log → ℕ → Result Entry Error
  pub try_append : Log → Entry → Result (Unit {0}) Error × Log
  pub log_to_bytes : Log → Bytes
  pub log_try_from : Bytes → Result Log String
  pub encoded_log : Log → String
  pub encoded_log_try_from : String → Result Log String
  -- `Entry` and its builder
  pub locks : Entry → List (ScriptOf Key OtherScript)
  pub entry_vlad : Entry → Vlad
  pub entry_cid : Entry → Cid
  pub entry_seqno : Entry → ℕ
  pub entry_version : ℕ
  pub entry_build : EntryDraft Vlad Cid (ScriptOf Key OtherScript) → MutableEntry
  pub add_op : MutableEntry → Op → MutableEntry
  pub with_lipmaa : MutableEntry → Cid → MutableEntry
  pub prepare_unsigned_entry : MutableEntry → Result Entry Error
  pub entry_to_bytes : Entry → Bytes
  pub try_build_with_proof : Entry → Bytes → Result Entry Error
  pub is_lipmaa : ℕ → Bool
  pub lipmaa : ℕ → ℕ
  pub op_try_build : OpBuilder Key → Result Op Error
  -- encodings
  pub base64_url : Base
  pub multibase_encode : Base → Bytes → String
  pub multibase_decode : String → Bool → Result (Base × Bytes) String
  pub encoded_vlad : Vlad → String
  pub encoded_vlad_try_from : String → Result Vlad String
  pub encoded_cid : Cid → String
  pub cid_to_bytes : Cid → Bytes
  pub encoded_multikey : Multikey → String
  pub encoded_multikey_try_from : String → Result Multikey String
  pub multikey_to_bytes : Multikey → Bytes
  pub multikey_try_from : Bytes → Result Multikey String
  pub encoded_multisig : Multisig → String
  pub encoded_multisig_try_from : String → Result Multisig String
  pub multisig_to_bytes : Multisig → Bytes
  -- `attr_view()?.is_secret_key()` and `conv_view()?.to_public_key()?`
  pub is_secret_key : Multikey → Result Bool Error
  pub to_public_key : Multikey → Result Multikey Error
  pub codec_eq : Eq Codec
  pub codec_debug : Codec → String
  pub secp256k1_priv : Codec
  -- SHA-256, and `{:?}` of a string
  pub sha256 : Bytes → Bytes
  pub str_debug : String → String

module _ ⦃x : Externals⦄ where
  instance abbrev pub key_instance : Eq x.Key
  key_instance = x.key_eq

  abbrev pub Key : Type 0
  Key = x.Key

  abbrev pub Script : Type 0
  Script = ScriptOf x.Key x.OtherScript

  abbrev pub Entry : Type 0
  Entry = x.Entry

  abbrev pub Log : Type 0
  Log = x.Log

  abbrev pub Kvp : Type 0
  Kvp = List (x.Key × Value)

  abbrev pub Multikey : Type 0
  Multikey = x.Multikey

  abbrev pub Multisig : Type 0
  Multisig = x.Multisig

  abbrev pub Vlad : Type 0
  Vlad = x.Vlad

  abbrev pub Cid : Type 0
  Cid = x.Cid

  abbrev pub OpParams : Type 0
  OpParams = OpParamsOf x.Key x.Cid x.Multikey x.KeyGen x.CidGen
