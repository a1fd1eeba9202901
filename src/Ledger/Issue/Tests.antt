-- ===== src/Ledger/Issue/Tests.antt =====
-- An issue of two vouchers on credit at concrete values (services/agent_ledger.go, `IssueToAgent`).
use zyranet_api.Voucher.Codes.{unique_code_finds}
use zyranet_api.Base.{
  ℕ, ◌-◌, ◌*◌, ◌^◌, ◌≤◌, ◌≡◌, refl, false, some, List, [], ◌∷◌, ◌++◌, arith, All, length,
  exists_where,
}
use zyranet_api.Int.{pos, negsuc, ◌+ℤ◌, ◌-ℤ◌, ◌*ℤ◌, ◌≤ℤ◌, quot}
use zyranet_api.Words.{wrap64, add64, sub64, mul64, neg64}
use zyranet_api.Text.{Text, bytes, text_eq, trim_space, to_lower, to_upper, decimal, sprint}
use zyranet_api.Models.{Voucher}
use zyranet_api.Voucher.Generate.{generate_tx, unique_code, new_voucher, has_code}
use zyranet_api.Ledger.Rows.{Batch, AgentVoucher, Entry, EntryType, Funding, credit}
use zyranet_api.Ledger.Tx.{Db, Env, ok, insert_entry}
use zyranet_api.Ledger.Commission.{commission_for}
use zyranet_api.Ledger.Money.{format_cents}
use zyranet_api.Ledger.Idempotency.{
  run_idempotent, transaction, lock, replayed, save, request_hash, valid_idempotency_key,
}
use zyranet_api.Ledger.Postings.{balance_of, agent_balance, new_entry}
use zyranet_api.Ledger.Entries.Laws.{Moves}
use zyranet_api.Ledger.Samples.{env, owner, reseller, shop, key_row, hourly}
use zyranet_api.Ledger.Checks.{
  IssueRequest, Terms, check_issue, parse_funding, terms_of, check_limit,
}
use zyranet_api.Ledger.Issue.{
  IssueResult, issue_to_agent, issue_note, find_offer, insert_batch, mint_one, mint, issue_entries,
  insert_entries, write_batch, issue_body, run_issue, load_batch, issue_parts, batch_entry,
  held_voucher,
}
use zyranet_api.Ledger.Issue.Entries.{owed}
use zyranet_api.Ledger.Issue.Balance.{IsPriced}
use zyranet_api.Ledger.Issue.Codes.{Coded, mint-Coded}
use zyranet_api.Ledger.Issue.Limits.{issue_to_agent_limits, issue_to_agent_delivers}

abbrev two_hours : IssueRequest
two_hours = record {
  agent_id = 2;
  zone_id = 4;
  package_id = 6;
  quantity = pos 2;
  funding = bytes "credit";
  method = [];
  reference = [];
  key = bytes "key-0001";
}

abbrev batch : Batch
batch = record {
  id = 1;
  org_id = 1;
  agent_id = 2;
  zone_id = 4;
  package_id = 6;
  quantity = 2;
  face = pos 1000;
  commission = pos 100;
  funding = credit;
  created_by = 7;
  created_at = 9;
}

abbrev terms : Terms
terms = record {
  face = pos 1000;
  commission = pos 100;
  gross = pos 2000;
  commission_total = pos 200;
  net = pos 1800;
}

abbrev issued_entries : List Entry
issued_entries =
    record (batch_entry 1 2 (bytes "2 x Hour @ KES 10.00")
      (new_entry env owner 2 EntryType.issue (pos 2000))) { id = 1 }
    ∷ record (batch_entry 1 2 (bytes "2 x Hour @ KES 10.00")
        (new_entry env owner 2 EntryType.commission (negsuc 199))) { id = 2 }
    ∷ []

abbrev new_vouchers : List Voucher
new_vouchers =
    new_voucher 1 (bytes "V0") 4 6 (bytes "single_use") (pos 1)
    ∷ new_voucher 2 (bytes "V1") 4 6 (bytes "single_use") (pos 1)
    ∷ []

abbrev stocked : Db
stocked = record shop {
  vouchers = new_vouchers;
  batches = batch ∷ [];
  agent_vouchers = held_voucher env owner 2 1 terms 1 1 ∷ held_voucher env owner 2 1 terms 2 2 ∷ [];
  entries = issued_entries;
  keys =
      key_row (bytes "key-0001") (bytes "issue")
        (request_hash env (issue_parts env owner two_hours [] [])) 1
      ∷ [];
  next_voucher = 3;
  next_batch = 2;
  next_agent_voucher = 3;
  next_entry = 3;
}

abbrev delivery : IssueResult
delivery = record {
  batch = batch;
  vouchers = new_vouchers;
  entries = issued_entries;
  replayed = false;
}

delivery_test : issue_to_agent env owner two_hours shop ≡ (ok delivery, stocked)
unfolding issue_to_agent check_issue parse_funding terms_of check_limit issue_note find_offer
    insert_batch mint_one mint issue_entries insert_entries write_batch issue_body run_issue
    load_batch run_idempotent transaction lock replayed save request_hash sprint
    valid_idempotency_key text_eq trim_space to_lower to_upper insert_entry new_entry agent_balance
    balance_of generate_tx unique_code decimal format_cents commission_for quot neg64 add64 sub64
    mul64 wrap64 ◌-ℤ◌ ◌+ℤ◌ ◌*ℤ◌
delivery_test = refl

asks_credit : parse_funding (bytes "credit") ≡ some credit
unfolding parse_funding text_eq
asks_credit = refl

no_debt : balance_of 2 shop.entries ≤ℤ pos (2 ^ 62)
unfolding balance_of
no_debt = ground arith

shop-IsPriced : All IsPriced shop.packages
shop-IsPriced = (ground arith, tt)

issue_to_agent_limits_example : balance_of 2 stocked.entries ≤ℤ pos 50_000
issue_to_agent_limits_example =
    issue_to_agent_limits env owner two_hours reseller credit shop stocked delivery refl asks_credit
      shop-IsPriced no_debt delivery_test refl

issue_to_agent_delivers_example :
    (n f c : ℕ) × (funding : Funding) × (added : List AgentVoucher) × (pos 2 ≡ pos n)
    × (parse_funding (bytes "credit") ≡ some funding)
    × (c ≤ f)
    × Moves 2 3 (owed funding (pos (f * n - c * n))) shop.entries stocked.entries
    × (stocked.agent_vouchers ≡ shop.agent_vouchers ++ added)
    × (length added ≡ n)
    × All (λ h. (h.agent_id ≡ 2) × (h.face ≡ pos f) × (h.commission ≡ pos c)) added
issue_to_agent_delivers_example =
    issue_to_agent_delivers env owner two_hours reseller 3 shop stocked delivery refl (ground arith)
      shop-IsPriced delivery_test refl

abbrev minted : Db
minted = record shop {
  vouchers = new_vouchers;
  agent_vouchers = stocked.agent_vouchers;
  next_voucher = 3;
  next_agent_voucher = 3;
}

minted_test : mint env owner 2 1 hourly terms 2 0 shop ≡ ok (tt, minted)
unfolding mint mint_one generate_tx unique_code text_eq decimal
minted_test = refl

mint-Coded_example : Coded hourly 2 shop minted
mint-Coded_example = mint-Coded env owner 2 1 hourly terms 2 0 shop minted tt minted_test

-- A voucher of three uses.
abbrev shared_voucher : Voucher
shared_voucher = new_voucher 1 (bytes "V0") 4 6 (bytes "multi_use") (pos 3)

abbrev with_shared : Db
with_shared = record shop { vouchers = shared_voucher ∷ []; next_voucher = 2 }

-- Each attempt draws a code of its own; the first is in use.
abbrev counting : Env
counting = record env { draw = λ i attempt. some (b'V' ∷ decimal attempt) }

second_free : exists_where (has_code (b'V' ∷ decimal 1)) (shared_voucher ∷ []) ≡ false
unfolding text_eq decimal
second_free = refl

unique_code_finds_example :
    (c : Text) × (unique_code counting 0 (shared_voucher ∷ []) 20 0 ≡ some c)
    × (exists_where (has_code c) (shared_voucher ∷ []) ≡ false)
unique_code_finds_example =
    unique_code_finds counting 0 (shared_voucher ∷ []) (λ a. b'V' ∷ decimal a) 20 0 1 (λ a. refl)
      (λ a. refl) (ground arith) second_free
