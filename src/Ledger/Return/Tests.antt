-- ===== src/Ledger/Return/Tests.antt =====
-- A return at concrete values (services/agent_ledger.go).
use zyranet_api.Base.{ℕ, ◌≡◌, refl, false, none, some, [], ◌∷◌, arith}
use zyranet_api.Int.{pos, ◌-ℤ◌, ◌+ℤ◌}
use zyranet_api.Words.{neg64, add64, wrap64}
use zyranet_api.Text.{bytes, text_eq, trim_space, trim_left, trim_right, sprint, decimal}
use zyranet_api.Models.{Voucher, VoucherStatus}
use zyranet_api.Ledger.Rows.{AgentVoucher, HeldStatus, EntryType}
use zyranet_api.Ledger.Tx.{Db, ok, insert_entry}
use zyranet_api.Ledger.Idempotency.{
  valid_idempotency_key, request_hash, run_idempotent, transaction, lock, replayed, save,
}
use zyranet_api.Ledger.Postings.{new_entry}
use zyranet_api.Ledger.Entries.{Receipt, load_entry}
use zyranet_api.Ledger.Samples.{env, owner, shop}
use zyranet_api.Ledger.Return.{
  ReturnRequest, return_agent_vouchers, return_body, return_held, return_each, return_one,
  post_return, post_commission, return_entry,
}
use zyranet_api.Ledger.Return.Laws.{Returns, return_agent_vouchers-Returns}

abbrev voucher : ℕ → Voucher
voucher id = record {
  id = id;
  code = [];
  zone_id = 4;
  package_id = 6;
  kind = bytes "single_use";
  usage_limit = some (pos 1);
  usage_count = pos 0;
  status = VoucherStatus.unused;
  used_by = none;
  expires_at = none;
}

abbrev held : ℕ → AgentVoucher
held id = record {
  id = id;
  org_id = 1;
  agent_id = 2;
  batch_id = 5;
  voucher_id = id;
  face = pos 1000;
  commission = pos 100;
  status = HeldStatus.issued;
  sold_at = none;
  returned_at = none;
  created_at = 3;
}

abbrev stocked : Db
stocked = record shop {
  vouchers = voucher 1 ∷ voucher 2 ∷ voucher 3 ∷ [];
  agent_vouchers = held 1 ∷ held 2 ∷ held 3 ∷ [];
}

abbrev hand_back : ReturnRequest
hand_back = record {
  agent_id = 2;
  voucher_ids = 3 ∷ 1 ∷ 3 ∷ [];
  batch_id = 0;
  note = [];
  key = bytes "key-0009";
}

abbrev after : Db
after = (return_agent_vouchers env owner hand_back stocked).1

abbrev receipt : Receipt
receipt = record {
  entry =
      record (return_entry env owner EntryType.return (held 1 ∷ held 3 ∷ [])
        (bytes "2 unsold voucher(s) returned") 2 (neg64 (pos 2000))) { id = 1 };
  replay = false;
}

returned_test : return_agent_vouchers env owner hand_back stocked ≡ (ok receipt, after)
unfolding return_agent_vouchers return_body return_held return_each return_one post_return
    post_commission load_entry run_idempotent transaction lock replayed save request_hash sprint
    valid_idempotency_key text_eq trim_space trim_left trim_right insert_entry new_entry neg64 add64
    wrap64 ◌-ℤ◌ ◌+ℤ◌ decimal
returned_test = refl

return_agent_vouchers-Returns_example : Returns env owner hand_back stocked 3 after.entries
return_agent_vouchers-Returns_example =
    return_agent_vouchers-Returns env owner hand_back 3 stocked after receipt (ground arith)
      returned_test refl
