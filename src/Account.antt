-- ===== src/Account.antt =====
-- rust-lib/src/api.rs: `PlogAccount`, a verified log with its pending challenges: its readers, and
-- the step that assembles an entry.
pub mod Preparing
pub mod Committing
pub mod Prepare
pub mod Specs
pub mod Invariant
pub mod Methods
pub mod Commit
pub mod Challenge
pub mod Append
pub mod Atomic
pub mod Policy
pub mod Trust
pub mod Enact
use Prim.Native.String.{◌++◌}
use logos_accounts.Prelude.{
  ℕ, ◌*◌, ◌-◌, ◌^◌, String, Bool, not, Option, none, some, List, [], ◌∷◌, Result, ok, err, ok_or,
  ◌==◌, string_eq, ltb, if◌then◌else◌,
}
use logos_accounts.Prelude.{◌>>=◌ as ◌>>=?◌}
use logos_accounts.Prelude.Dict.{Dict, lookup, insert, remove, retain}
use logos_accounts.Prelude.Exec.{Exec, pure, lift, gets, reads, modify, continue, ◌>>=◌, ◌>>◌}
use logos_accounts.Error.{Error, invalid_op, challenge_not_found, head_mismatch}
use logos_accounts.Externals.{
  Externals, Key, Script, Entry, Log, Multikey, Multisig, Bytes, OpParams, OpParamsOf, code, other,
}
use logos_accounts.Config.{
  default_unlock_script, delegate_pubkey_key, delegated_branch_lock_script, parse_branch_path,
  pubkey_key_path,
}
use logos_accounts.Encoding.{
  encode_bytes_multibase, encode_cid, encode_plog, encode_vlad, decode_multikey, decode_multisig,
  decode_plog, plog_from_bytes, plog_to_bytes,
}
use logos_accounts.EntryUpdate.{
  UnsignedUpdate, NextEntrySpec, last_entry, prepare_next_entry, commit_with_multisig, use_key_op,
}
use logos_accounts.EphemeralOpen.{OpenPlog, KeyGeneration, open_plog_with_external_pubkey}
use logos_accounts.Plog.{
  AccountSummary, PlogPathValue, parse_key, get_plog_value, summary_from_verified_plog,
}
use logos_accounts.Request.{
  LockSpec, LockScriptJson, EntryUpdateRequest, FromStr, parse_entry_update_request,
  plog_ops_to_params, lock_spec_to_scripts,
}
use logos_accounts.Delegations.{
  PathDelegation, list_plog_delegations, resolve_closest_parent_signing_key,
}

pub data UpdateKind : Type 0 where
  entry_update delegate revoke : UpdateKind

pub record UpdateChallenge : Type 0 where
  pub challenge_id : String
  pub vlad : String
  pub kind : UpdateKind
  pub path : Option String
  pub signing_key_path : String
  pub head_cid : String
  pub message_multibase : String
  pub message_encoding : String

-- What one call of a `prepare_*` method reads from the clock and the random generator: the two
-- readings of `Instant::now`, in nanoseconds, and the 16 bytes of `new_challenge_id`.
pub record Ambient : Type 0 where
  pub now : ℕ
  pub inserted_at : ℕ
  pub random : Bytes

-- `Duration::from_secs(15 * 60)`, in nanoseconds
abbrev pub challenge_ttl : ℕ
challenge_ttl = 15 * 60 * 10 ^ 9

module _ ⦃x : Externals⦄ where
  open x use {log_vlad, log_head, key_to_string, other_debug}

  pub record PrepareEntrySpec : Type 0 where
    pub locks : LockSpec
    pub ops : List OpParams
    pub sign_as : String
    pub kind : UpdateKind
    pub path : Option String

  pub record PendingUpdate : Type 0 where
    pub head_cid : String
    pub unsigned : UnsignedUpdate
    pub kind : UpdateKind
    pub path : Option String
    pub created_at : ℕ

  pub record PlogAccount : Type 0 where
    pub log : Log
    pub pending : Dict String PendingUpdate

  abbrev pub Method : Type 0 → Type 0
  Method A = Exec PlogAccount Error A

  unfoldable pub new_challenge_id : Bytes → String
  new_challenge_id random = encode_bytes_multibase random

  -- The common end of `create`, `import` and `import_bytes`.
  unfoldable pub verified_account : Log → Result (PlogAccount × AccountSummary) Error
  verified_account log = summary_from_verified_plog log >>=? λ summary.
      ok (record { log = log; pending = [] }, summary)

  unfoldable pub create :
      OpenPlog → KeyGeneration → String → Result (PlogAccount × AccountSummary) Error
  unfolding verified_account
  create open_plog gen pubkey_multibase = decode_multikey pubkey_multibase >>=? λ mk.
      open_plog_with_external_pubkey open_plog gen mk >>=? verified_account

  unfoldable pub import : String → Result (PlogAccount × AccountSummary) Error
  unfolding verified_account
  import plog_multibase = decode_plog plog_multibase >>=? verified_account

  unfoldable pub import_bytes : Bytes → Result (PlogAccount × AccountSummary) Error
  unfolding verified_account
  import_bytes plog_bytes = plog_from_bytes plog_bytes >>=? verified_account

  unfoldable pub summary : PlogAccount → Result AccountSummary Error
  summary account = summary_from_verified_plog account.log

  unfoldable pub vlad : PlogAccount → String
  vlad account = encode_vlad (log_vlad account.log)

  unfoldable pub export_plog : PlogAccount → String
  export_plog account = encode_plog account.log

  unfoldable pub export_plog_bytes : PlogAccount → Bytes
  export_plog_bytes account = plog_to_bytes account.log

  unfoldable pub get_value : PlogAccount → String → Result PlogPathValue Error
  get_value account path = get_plog_value account.log path

  unfoldable pub list_delegations : PlogAccount → Result (List PathDelegation) Error
  list_delegations account = list_plog_delegations account.log

  unfoldable pub current_head_cid : PlogAccount → String
  current_head_cid account = encode_cid (log_head account.log)

  -- `now.duration_since(created_at) < CHALLENGE_TTL`; `duration_since` stops at zero.
  unfoldable pub is_live : ℕ → PendingUpdate → Bool
  is_live now p = ltb (now - p.created_at) challenge_ttl

  unfoldable pub purge_expired_challenges : ℕ → PlogAccount → PlogAccount
  unfolding is_live
  purge_expired_challenges now account = record account {
    pending = retain (is_live now) account.pending;
  }

  unfoldable pub head_entry : PlogAccount → Result Entry Error
  head_entry account = last_entry account.log

  unfoldable pub insert_pending : String → PendingUpdate → PlogAccount → PlogAccount
  insert_pending id p account = record account { pending = insert id p account.pending }

  unfoldable pub next_spec : PrepareEntrySpec → Option (List Script) → NextEntrySpec
  next_spec spec next_locks = record {
    unlock = default_unlock_script;
    next_locks = next_locks;
    ops = spec.ops;
  }

  -- The unsigned next entry for `spec`: the reads of `prepare_entry`.
  unfoldable pub assemble : PrepareEntrySpec → PlogAccount → Result UnsignedUpdate Error
  assemble spec account = head_entry account >>=? λ head.
      lock_spec_to_scripts head spec.locks >>=? λ next_locks.
      prepare_next_entry account.log (next_spec spec next_locks)

  unfoldable pub pending_of :
      Ambient → PrepareEntrySpec → UnsignedUpdate → PlogAccount → PendingUpdate
  pending_of env spec unsigned account = record {
    head_cid = current_head_cid account;
    unsigned = unsigned;
    kind = spec.kind;
    path = spec.path;
    created_at = env.inserted_at;
  }

  unfoldable pub challenge_of :
      Ambient → PrepareEntrySpec → UnsignedUpdate → PlogAccount → UpdateChallenge
  challenge_of env spec unsigned account = record {
    challenge_id = new_challenge_id env.random;
    vlad = vlad account;
    kind = spec.kind;
    path = spec.path;
    signing_key_path = spec.sign_as;
    head_cid = current_head_cid account;
    message_multibase = encode_bytes_multibase unsigned.signing_bytes;
    message_encoding = "entry-bytes";
  }

  unfoldable pub prepare_entry : Ambient → PrepareEntrySpec → Method UpdateChallenge
  unfolding purge_expired_challenges assemble insert_pending pending_of challenge_of
  prepare_entry env spec = do
    modify (purge_expired_challenges env.now)
    unsigned ← reads (assemble spec)
    challenge ← gets (challenge_of env spec unsigned)
    modify (λ a. insert_pending (new_challenge_id env.random) (pending_of env spec unsigned a) a)
    pure challenge
