-- ===== src/Voucher/Redeem.antt =====
-- The redemption of a voucher (services/voucher.go, `Redeem`; services/agent_ledger.go,
-- `MarkAgentVoucherSold`). The transaction is one step, as its row lock makes it; the SMS behind it is
-- left out, and the calendar's month is a parameter.
use zyranet_api.Base.{
  ℕ, suc, ◌-◌, Bool, true, false, not, ◌&&◌, Option, none, some, [], ◌∷◌, ◌++◌, ltb, ◌==◌,
  if◌then◌else◌, length, find_first, count_where, update_where,
}
use zyranet_api.Int.{ℤ, pos, leb_ℤ, ◌+ℤ◌}
use zyranet_api.Text.{Text, bytes, text_eq, trim_space, to_upper}
use zyranet_api.Text.Cut.{drop}
use zyranet_api.Models.{Voucher, VoucherStatus, Package, Customer, CustomerStatus}
use zyranet_api.Ledger.Rows.{AgentVoucher, HeldStatus}
use zyranet_api.Ledger.Tx.{Db}
use zyranet_api.Utils.Expiry.{calculate_voucher_expiry}

pub data RedeemError : Type 0 where
  code_not_found unusable past_expiry package_unavailable phone_too_short : RedeemError
  customer_not_created already_redeemed statement_failed : RedeemError

pub record Redeemed : Type 0 where
  pub voucher : Voucher
  pub customer : Customer
  pub plan : Package

pub data RedeemResult : Type 0 where
  granted : Redeemed → RedeemResult
  denied : RedeemError → RedeemResult

pub data RedeemStmt : Type 0 where
  find_voucher find_package find_customer create_customer update_customer update_voucher mark_sold :
      RedeemStmt

pub record RedeemEnv : Type 0 where
  pub now : ℕ
  pub add_month : ℕ → ℕ
  pub fails : RedeemStmt → Bool

-- A query that fails reads as no row.
abbrev pub row_or_none : {A : Type 0} → Bool → Option A → Option A
row_or_none failing o = if failing then none else o

abbrev pub status_code : VoucherStatus → ℕ
status_code VoucherStatus.unused = 0
status_code VoucherStatus.active = 1
status_code VoucherStatus.expired = 2
status_code VoucherStatus.depleted = 3
status_code VoucherStatus.void = 4

abbrev pub is_usable : VoucherStatus → Bool
is_usable VoucherStatus.unused = true
is_usable VoucherStatus.active = true
is_usable _ = false

abbrev pub is_past : ℕ → Option ℕ → Bool
is_past now none = false
is_past now (some e) = ltb e now

abbrev pub limit_of : Voucher → ℤ
limit_of v = elim v.usage_limit [ none ↦ pos 1 | some n ↦ n ]

abbrev pub status_after : Voucher → VoucherStatus
status_after v =
    if leb_ℤ (limit_of v) (v.usage_count +ℤ pos 1)
    then VoucherStatus.depleted
    else VoucherStatus.active

abbrev pub spend : Voucher → Customer → Voucher → Voucher
spend v c r = record r {
  usage_count = v.usage_count +ℤ pos 1;
  status = status_after v;
  used_by = some c.id;
  expires_at = c.expires_at;
}

abbrev pub is_same_row : Voucher → Voucher → Bool
is_same_row v r = r.id == v.id && status_code r.status == status_code v.status

abbrev pub is_customer_of : Text → ℕ → Customer → Bool
is_customer_of phone zone_id c = text_eq c.phone phone && c.zone_id == zone_id

abbrev pub is_issued_voucher : ℕ → AgentVoucher → Bool
is_issued_voucher voucher_id a = a.voucher_id == voucher_id && (elim a.status [
  | HeldStatus.issued ↦ true
  | HeldStatus.sold ↦ false
  | HeldStatus.returned ↦ false
])

module _ (env : RedeemEnv) where
  abbrev pub ends_at : Package → Option ℕ
  ends_at p =
      some (calculate_voucher_expiry env.add_month env.now p.billing_cycle p.time_limit_minutes)

  abbrev pub guest : Voucher → Package → Text → ℕ → Customer
  guest v p phone id = record {
    id = id;
    name = bytes "Guest " ++ drop (length phone - 4) phone;
    phone = phone;
    zone_id = v.zone_id;
    package_id = v.package_id;
    kind = bytes "hotspot";
    status = CustomerStatus.active;
    expires_at = ends_at p;
    pppoe_username = none;
    mac_address = none;
    credit_balance = pos 0;
  }

  abbrev pub renewed : Voucher → Package → Customer → Customer
  renewed v p c = record c {
    package_id = v.package_id;
    status = CustomerStatus.active;
    expires_at = ends_at p;
  }

  -- The agent's part, a no-op for a voucher that no agent holds.
  unfoldable pub mark_agent_voucher_sold : ℕ → Db → Db
  mark_agent_voucher_sold voucher_id db = record db {
    agent_vouchers =
        update_where (is_issued_voucher voucher_id)
          (λ a. record a { status = HeldStatus.sold; sold_at = some env.now }) db.agent_vouchers;
  }

  -- The conditional write of the voucher, for a customer that is ready in `db`; `before` is what a
  -- rollback restores.
  abbrev pub use_up : Voucher → Package → Customer → Db → Db → RedeemResult × Db
  use_up v p c db before =
      if env.fails update_voucher
      then (denied statement_failed, before)
      else if count_where (is_same_row v) db.vouchers == 0
      then (denied already_redeemed, before)
      else if env.fails mark_sold
      then (denied statement_failed, before)
      else (
        granted (record {
          voucher = record v { usage_count = v.usage_count +ℤ pos 1; status = status_after v };
          customer = c;
          plan = p;
        }),
        mark_agent_voucher_sold v.id
            (record db { vouchers = update_where (is_same_row v) (spend v c) db.vouchers }),
      )

  abbrev pub for_customer : Voucher → Package → Text → Option Customer → Db → RedeemResult × Db
  for_customer v p phone none db =
      if ltb (length phone) 4
      then (denied phone_too_short, db)
      else if env.fails create_customer
      then (denied customer_not_created, db)
      else use_up v p (guest v p phone db.next_customer)
          (record db {
            customers = db.customers ++ guest v p phone db.next_customer ∷ [];
            next_customer = suc db.next_customer;
          })
          db
  for_customer v p phone (some c) db =
      use_up v p (renewed v p c)
        (if env.fails update_customer then db else record db {
          customers = update_where (λ r. r.id == c.id) (renewed v p) db.customers;
        })
        db

  abbrev pub with_package : Voucher → Text → Option Package → Db → RedeemResult × Db
  with_package v phone none db = (denied package_unavailable, db)
  with_package v phone (some p) db =
      if not (text_eq p.status (bytes "active"))
      then (denied package_unavailable, db)
      else for_customer v p phone
          (row_or_none (env.fails find_customer)
            (find_first (is_customer_of phone v.zone_id) db.customers))
          db

  -- The status that an expired voucher is given is rolled back with the rest.
  abbrev pub with_voucher : Text → Option Voucher → Db → RedeemResult × Db
  with_voucher phone none db = (denied code_not_found, db)
  with_voucher phone (some v) db =
      if not (is_usable v.status)
      then (denied unusable, db)
      else if is_past env.now v.expires_at
      then (denied past_expiry, db)
      else with_package v phone
          (row_or_none (env.fails find_package)
            (find_first (λ p. p.id == v.package_id) db.packages))
          db

  abbrev pub voucher_by_code : Text → Db → Option Voucher
  voucher_by_code code db =
      find_first (λ v. text_eq v.code (to_upper (trim_space code))) db.vouchers

  unfoldable pub redeem : Text → Text → Db → RedeemResult × Db
  redeem code phone db =
      with_voucher phone (row_or_none (env.fails find_voucher) (voucher_by_code code db)) db
