-- ===== src/Externals/Data.antt =====
-- The library types that the crate takes apart or builds constructor by constructor.
use logos_accounts.Prelude.{ℕ, String, List, Option}

-- `Vec<u8>`
abbrev pub Bytes : Type 0
Bytes = List ℕ

-- provenance_log::Value
pub data Value : Type 0 where
  str : String → Value
  data_value : Bytes → Value
  nil : Value

-- provenance_log::Script: the crate knows its `Code` and treats all else alike.
pub data ScriptOf (Key Other : Type 0) : Type 0 where
  code : Key → String → ScriptOf Key Other
  other : Other → ScriptOf Key Other

-- provenance_log::OpId, as far as it is used
pub data OpId : Type 0 where
  noop delete update : OpId

-- bs::ops::update::OpParams
pub data OpParamsOf (Key Cid Multikey KeyGen CidGen : Type 0) : Type 0 where
  noop delete : Key → OpParamsOf Key Cid Multikey KeyGen CidGen
  use_cid : Key → Cid → OpParamsOf Key Cid Multikey KeyGen CidGen
  use_key : Key → Multikey → OpParamsOf Key Cid Multikey KeyGen CidGen
  use_str : Key → String → OpParamsOf Key Cid Multikey KeyGen CidGen
  use_bin : Key → Bytes → OpParamsOf Key Cid Multikey KeyGen CidGen
  key_gen : KeyGen → OpParamsOf Key Cid Multikey KeyGen CidGen
  cid_gen : CidGen → OpParamsOf Key Cid Multikey KeyGen CidGen

-- What `Entry::builder()` is given before `build()`.
pub record EntryDraft (Vlad Cid Script : Type 0) : Type 0 where
  pub version : ℕ
  pub vlad : Vlad
  pub prev : Cid
  pub seqno : ℕ
  pub locks : List Script
  pub unlock : Script

-- What `op::Builder` is given before `try_build()`.
pub record OpBuilder (Key : Type 0) : Type 0 where
  pub id : OpId
  pub key_path : Key
  pub value : Option Value
