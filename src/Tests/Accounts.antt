-- ===== src/Tests/Accounts.antt =====
-- Accounts of the small libraries.
use logos_accounts.Prelude.{none, [], ◌∷◌}
use logos_accounts.Externals.{code}
use logos_accounts.Account.{PlogAccount, Ambient, PrepareEntrySpec, PendingUpdate, entry_update}
use logos_accounts.Request.{LockSpec}
use logos_accounts.Tests.Demo.{first_entry, demo, DemoEntry, DemoLog}

abbrev pub second_entry : DemoEntry
second_entry = record {
  seqno = 1;
  prev = "i.";
  demo_locks = code "/" "check_signature(\"/pubkey\", \"/entry/\")" ∷ [];
  ops = [];
  proof = [];
}

abbrev pub opened_log : DemoLog
opened_log = record { demo_vlad = "vlad"; entries = first_entry ∷ [] }

abbrev pub opened : PlogAccount
opened = record { log = opened_log; pending = [] }

abbrev pub at_noon : Ambient
at_noon = record { now = 1000; inserted_at = 1001; random = 2 ∷ [] }

abbrev pub touch : PrepareEntrySpec
touch = record {
  locks = LockSpec.keyword "inherit";
  ops = [];
  sign_as = "/pubkey";
  kind = entry_update;
  path = none;
}

abbrev pub pending_touch : PendingUpdate
pending_touch = record {
  head_cid = "i.";
  unsigned = record { entry = second_entry; signing_bytes = 1 ∷ 0 ∷ [] };
  kind = entry_update;
  path = none;
  created_at = 1001;
}

-- The account with one challenge pending.
abbrev pub waiting : PlogAccount
waiting = record { log = opened_log; pending = ("ii.", pending_touch) ∷ [] }
