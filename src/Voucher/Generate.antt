-- ===== src/Voucher/Generate.antt =====
-- The generation of a voucher inside the caller's transaction (services/voucher.go: `GenerateTx`,
-- `uniqueCode`).
use zyranet_api.Base.{
  ℕ, zero, suc, Bool, ◌&&◌, not, none, some, Option, List, [], ◌∷◌, ◌++◌, if◌then◌else◌,
  exists_where,
}
use zyranet_api.Int.{ℤ, pos}
use zyranet_api.Text.{Text, text_eq, bytes}
use zyranet_api.Models.{Voucher, VoucherStatus}
use zyranet_api.Ledger.Tx.{
  Db, Env, fault, Tx, pure, gets, or_fail, fail_if, modify, ◌>>=◌, ◌>>◌, count_code, create_voucher,
}

abbrev pub has_code : Text → Voucher → Bool
has_code code v = text_eq v.code code

-- Up to `fuel` more draws for the voucher numbered `i`. A count that fails is zero.
unfoldable pub unique_code : Env → ℕ → List Voucher → ℕ → ℕ → Option Text
unique_code env i vouchers zero attempt = none
unique_code env i vouchers (suc fuel) attempt =
    let rest = unique_code env i vouchers fuel (suc attempt) in
    elim (env.draw i attempt) [
      | none ↦ none
      | some code ↦
          if not (env.fails (count_code i attempt)) && exists_where (has_code code) vouchers
          then rest
          else some code
    ]

abbrev pub new_voucher : ℕ → Text → ℕ → ℕ → Text → ℤ → Voucher
new_voucher id code zone_id package_id kind usage_limit = record {
  id = id;
  code = code;
  zone_id = zone_id;
  package_id = package_id;
  kind = kind;
  usage_limit = some usage_limit;
  usage_count = pos 0;
  status = VoucherStatus.unused;
  used_by = none;
  expires_at = none;
}

abbrev pub append_voucher : Voucher → Db → Db
append_voucher v db = record db {
  vouchers = db.vouchers ++ v ∷ [];
  next_voucher = suc db.next_voucher;
}

-- The id of the new voucher. A code that is in use breaks the unique index.
unfoldable pub generate_tx : Env → ℕ → ℕ → ℕ → Text → ℤ → Tx ℕ
generate_tx env i zone_id package_id kind usage_limit = do
  let limit = if text_eq kind (bytes "single_use") then pos 1 else usage_limit
  code ← or_fail (← gets (λ db. unique_code env i db.vouchers 20 0)) fault
  fail_if (env.fails (create_voucher i)) fault
  fail_if (← gets (λ db. exists_where (has_code code) db.vouchers)) fault
  id ← gets (λ db. db.next_voucher)
  modify (append_voucher (new_voucher id code zone_id package_id kind limit))
  pure id
