-- ===== src/Tests/Demo.antt =====
-- Small libraries that run: keys and identities are texts, a log is a list of entries, oldest
-- first, and an entry verifies if it has a proof.
use Prim.Native.String.{◌++◌ as ◌+++◌}
use Prim.Native.Char.{code as char_code}
use text.Mathlib.Text.{starts_with}
use logos_accounts.Prelude.{
  ℕ, zero, suc, ◌+◌, ◌%◌, String, Bool, false, not, ◌&&◌, Option, none, some, List, [], ◌∷◌, ◌++◌,
  Result, ok, err, ◌==◌, string_eq, nat_eq, nat_beq, length, get_last?, if◌then◌else◌,
}
use logos_accounts.Prelude.Dict.{insert, remove}
use logos_accounts.Error.{Error, plog}
use logos_accounts.Externals.{
  Externals, Bytes, Value, nil, data_value, ScriptOf, code, other, OpBuilder, OpId,
}

abbrev pub codes : String → List ℕ
codes String.[] = []
codes (String.◌∷◌ c s) = char_code c ∷ codes s

abbrev pub unary : ℕ → String
unary zero = "."
unary (suc n) = "i" +++ unary n

abbrev pub text_of : Bytes → String
text_of [] = ""
text_of (b ∷ bs) = unary b +++ text_of bs

-- The text ends with a slash.
abbrev pub ends_in_slash : String → Bool
ends_in_slash s = elim (get_last? (codes s)) [ none ↦ false | some c ↦ nat_beq c b'/' ]

pub record DemoEntry : Type 0 where
  pub seqno : ℕ
  pub prev : String
  pub demo_locks : List (ScriptOf String (Unit {0}))
  pub ops : List (OpBuilder String)
  pub proof : Bytes

pub record DemoLog : Type 0 where
  pub demo_vlad : String
  pub entries : List DemoEntry

abbrev pub first_entry : DemoEntry
first_entry = record {
  seqno = 0;
  prev = "";
  demo_locks = code "/" "check_signature(\"/pubkey\", \"/entry/\")" ∷ [];
  ops = record { id = OpId.update; key_path = "/pubkey"; value = some (data_value (5 ∷ [])) } ∷ [];
  proof = 1 ∷ [];
}

abbrev value_or_nil : Option Value → Value
value_or_nil none = nil
value_or_nil (some v) = v

abbrev apply_op : OpId → String → Option Value → List (String × Value) → List (String × Value)
apply_op OpId.noop k v kvp = kvp
apply_op OpId.delete k v kvp = remove k kvp
apply_op OpId.update k v kvp = insert k (value_or_nil v) kvp

abbrev pub apply_ops : List (OpBuilder String) → List (String × Value) → List (String × Value)
apply_ops [] kvp = kvp
apply_ops (o ∷ os) kvp = apply_ops os (apply_op o.id o.key_path o.value kvp)

abbrev pub has_proof : DemoEntry → Bool
has_proof e = not (nat_beq (length e.proof) 0)

abbrev pub verify_from :
    List (String × Value)
    → List DemoEntry
    → List (Result (ℕ × DemoEntry × List (String × Value)) String)
verify_from kvp [] = []
verify_from kvp (e ∷ es) =
    let kvp' = apply_ops e.ops kvp in
    (if has_proof e then ok (1, e, kvp') else err "bad proof") ∷ verify_from kvp' es

abbrev entry_at : ℕ → List DemoEntry → Result DemoEntry Error
entry_at n [] = err (plog "no such entry")
entry_at n (e ∷ es) = if n == e.seqno then ok e else entry_at n es

abbrev script_key : ScriptOf String (Unit {0}) → String
script_key (code k source) = k
script_key (other o) = "/"

abbrev add_proof : Bytes → DemoEntry → Result DemoEntry Error
add_proof p e = ok (record e { proof = p })

abbrev pub append_entry : DemoLog → DemoEntry → Result (Unit {0}) Error × DemoLog
append_entry log e =
    if has_proof e
    then (ok tt, record log { entries = log.entries ++ e ∷ [] })
    else (err (plog "bad proof"), log)

abbrev parse_multikey : Bytes → Result Bytes String
parse_multikey [] = err "no key"
parse_multikey (b ∷ bs) = ok (b ∷ bs)

-- The secret keys.
abbrev begins_with_7 : Bytes → Bool
begins_with_7 [] = false
begins_with_7 (b ∷ bs) = nat_beq b 7

instance abbrev pub demo : Externals
demo = record {
  Key = String;
  OtherScript = Unit {0};
  Entry = DemoEntry;
  MutableEntry = DemoEntry;
  Log = DemoLog;
  Op = OpBuilder String;
  Vlad = String;
  Cid = String;
  Multikey = Bytes;
  Multisig = Bytes;
  Codec = ℕ;
  Base = Unit {0};
  KeyGen = Unit {0};
  CidGen = Unit {0};
  key_eq = string_eq;
  key_try_from = λ s. ok s;
  key_default = "/";
  as_str = λ k. k;
  key_to_string = λ k. k;
  is_branch = ends_in_slash;
  parent_of = λ k t. ends_in_slash k && (starts_with t k && not (k == t));
  pubkey_key = "/pubkey";
  other_debug = λ o. "other";
  script_path = script_key;
  log_vlad = λ l. l.demo_vlad;
  log_head = λ l. unary (length l.entries);
  verify = λ l. verify_from [] l.entries;
  log_seqno = λ l n. entry_at n l.entries;
  try_append = append_entry;
  log_to_bytes = λ l. [];
  log_try_from = λ b. err "not a log";
  encoded_log = λ l. l.demo_vlad;
  encoded_log_try_from = λ s. ok (record { demo_vlad = s; entries = first_entry ∷ [] });
  locks = λ e. e.demo_locks;
  entry_vlad = λ e. "vlad";
  entry_cid = λ e. unary (e.seqno + 1);
  entry_seqno = λ e. e.seqno;
  entry_version = 1;
  entry_build =
      λ d. record { seqno = d.seqno; prev = d.prev; demo_locks = d.locks; ops = []; proof = [] };
  add_op = λ e o. record e { ops = e.ops ++ o ∷ [] };
  with_lipmaa = λ e c. e;
  prepare_unsigned_entry = λ e. ok e;
  entry_to_bytes = λ e. e.seqno ∷ length e.ops ∷ [];
  try_build_with_proof = λ e p. add_proof p e;
  is_lipmaa = λ n. nat_beq (n % 3) 0;
  lipmaa = λ n. 0;
  op_try_build = λ o. ok o;
  base64_url = tt;
  multibase_encode = λ b bytes. text_of bytes;
  multibase_decode = λ s strict. ok (tt, codes s);
  encoded_vlad = λ v. v;
  encoded_vlad_try_from = λ s. ok s;
  encoded_cid = λ c. c;
  cid_to_bytes = codes;
  encoded_multikey = text_of;
  encoded_multikey_try_from = λ s. parse_multikey (codes s);
  multikey_to_bytes = λ k. k;
  multikey_try_from = λ b. ok b;
  encoded_multisig = text_of;
  encoded_multisig_try_from = λ s. ok (codes s);
  multisig_to_bytes = λ s. s;
  is_secret_key = λ k. ok (begins_with_7 k);
  to_public_key = λ k. ok (1 ∷ []);
  codec_eq = nat_eq;
  codec_debug = unary;
  secp256k1_priv = 1;
  sha256 = λ bytes. bytes;
  str_debug = λ s. "\"" +++ (s +++ "\"");
}
