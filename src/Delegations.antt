-- ===== src/Delegations.antt =====
-- rust-lib/src/api.rs: the delegated branches at the verified head, and the key that must sign for
-- a branch.
pub mod Contains
pub mod Granting
pub mod Closest
pub mod Listed
use Prim.Native.String.{◌++◌, len, compare}
use text.Mathlib.Text.{find?, is_le}
use logos_accounts.Prelude.{
  String, Bool, true, false, not, ◌||◌, Option, none, some, List, [], ◌∷◌, Result, ok, err, ◌>>=◌,
  ◌==◌, ltb, if◌then◌else◌,
}
use logos_accounts.Prelude.Sort.{sort_by}
use logos_accounts.Error.{Error}
use logos_accounts.Externals.{
  Externals, Key, Script, Entry, Log, Kvp, Value, data_value, nil, code, other, key_instance,
}
use logos_accounts.Config.{is_root, parse_branch_path, delegate_pubkey_key, pubkey_key_path}
use logos_accounts.Encoding.{encode_multikey}
use logos_accounts.Plog.{verified_head}

pub record PathDelegation : Type 0 where
  pub path : String
  pub pubkey : String

-- `str::contains`
unfoldable pub contains : String → String → Bool
contains s piece = elim (find? s piece) [ none ↦ false | some _ ↦ true ]

module _ ⦃x : Externals⦄ where
  open x use {as_str, key_to_string, is_branch, parent_of, script_path, locks, multikey_try_from}

  -- `take` of the loop: the first candidate, or a strictly longer one.
  unfoldable pub is_longer : Key → Option Key → Bool
  is_longer d_key none = true
  is_longer d_key (some b) = ltb (len (as_str b)) (len (as_str d_key))

  -- One round of the loop, on a path that parsed.
  unfoldable pub consider_key : Key → Option Key → Key → Option Key
  unfolding is_longer
  consider_key target best d_key =
      if d_key == target
      then best
      else if parent_of d_key target
      then (if is_longer d_key best then some d_key else best)
      else best

  unfoldable pub consider : Key → Option Key → PathDelegation → Option Key
  unfolding consider_key
  consider target best d = elim (parse_branch_path d.path) [
    | ok d_key ↦ consider_key target best d_key
    | err _ ↦ best
  ]

  unfoldable pub closest_parent : Key → Option Key → List PathDelegation → Option Key
  unfolding consider
  closest_parent target best [] = best
  closest_parent target best (d ∷ rest) = closest_parent target (consider target best d) rest

  unfoldable pub signing_key : Option Key → Result String Error
  signing_key (some branch) = delegate_pubkey_key branch >>= λ k. ok (key_to_string k)
  signing_key none = ok (key_to_string pubkey_key_path)

  unfoldable pub resolve_closest_parent_signing_key :
      Key → List PathDelegation → Result String Error
  unfolding closest_parent signing_key
  resolve_closest_parent_signing_key target delegations =
      signing_key (closest_parent target none delegations)

  unfoldable pub is_delegated : Script → Bool
  unfolding contains
  is_delegated (code p source) =
      contains source ("check_signature(\"" ++ (as_str p ++ "pubkey\""))
      || contains source "branch(\"pubkey\")"
  is_delegated (other o) = false

  -- The closure of `find_map`, on a value stored under the delegate's key.
  unfoldable pub grant_text : Value → Option String
  grant_text (data_value b) = elim (multikey_try_from b) [
    | ok mk ↦ some (encode_multikey mk)
    | err _ ↦ none
  ]
  grant_text (Value.str s) = some s
  grant_text nil = none

  unfoldable pub find_grant : Key → Kvp → Option String
  unfolding grant_text
  find_grant pk_key [] = none
  find_grant pk_key ((k, v) ∷ rest) =
      let later = find_grant pk_key rest in
      if k == pk_key then elim (grant_text v) [ some s ↦ some s | none ↦ later ] else later

  -- The body of the loop over the head's locks: the delegation that a lock stands for, if any.
  unfoldable pub delegation_of : Kvp → Script → Option PathDelegation
  unfolding is_root is_delegated find_grant
  delegation_of kvp lock =
      let path = script_path lock in
      if not (is_branch path) || is_root (as_str path)
      then none
      else if not (is_delegated lock)
      then none
      else elim (delegate_pubkey_key path) [
        | err _ ↦ none
        | ok pk_key ↦ elim (find_grant pk_key kvp) [
          | none ↦ none
          | some pubkey ↦ some (record { path = key_to_string path; pubkey = pubkey })
        ]
      ]

  unfoldable pub push_delegation : Option PathDelegation → List PathDelegation → List PathDelegation
  push_delegation none out = out
  push_delegation (some d) out = d ∷ out

  unfoldable pub delegations_of : Kvp → List Script → List PathDelegation
  unfolding delegation_of push_delegation
  delegations_of kvp [] = []
  delegations_of kvp (lock ∷ rest) =
      push_delegation (delegation_of kvp lock) (delegations_of kvp rest)

  abbrev pub path_le : PathDelegation → PathDelegation → Bool
  path_le a b = is_le (compare a.path b.path)

  unfoldable pub list_plog_delegations : Log → Result (List PathDelegation) Error
  unfolding delegations_of
  list_plog_delegations log =
      verified_head log >>= λ head. ok (sort_by path_le (delegations_of head.1 (locks head.0)))
