-- ===== src/Models.antt =====
-- The rows that several services read and write (models/zone.go, models/package.go,
-- models/voucher.go, models/customer.go). Times are nanoseconds since the epoch; a decimal(10,2)
-- amount is the integer number of its hundredths, so `CentsFromKES` is the identity on it.
use zyranet_api.Base.{ℕ, Bool, Option}
use zyranet_api.Int.{ℤ}
use zyranet_api.Text.{Text}

pub record Zone : Type 0 where
  pub id : ℕ
  pub org_id : ℕ
  pub name : Text
  pub status : Text
  pub last_seen_at : Option ℕ
  pub last_status : Text
  pub router_ip : Text
  pub public_ip : Text
  pub router_name : Text

pub record Package : Type 0 where
  pub id : ℕ
  pub zone_id : ℕ
  pub name : Text
  pub price : ℤ
  pub is_free_tier : Bool
  pub time_limit_minutes : Option ℤ
  pub billing_cycle : Text
  pub status : Text

pub data VoucherStatus : Type 0 where
  unused active expired depleted void : VoucherStatus

pub record Voucher : Type 0 where
  pub id : ℕ
  pub code : Text
  pub zone_id : ℕ
  pub package_id : ℕ
  pub kind : Text
  pub usage_limit : Option ℤ
  pub usage_count : ℤ
  pub status : VoucherStatus
  pub used_by : Option ℕ
  pub expires_at : Option ℕ

pub data CustomerStatus : Type 0 where
  active suspended expired : CustomerStatus

pub record Customer : Type 0 where
  pub id : ℕ
  pub name : Text
  pub phone : Text
  pub zone_id : ℕ
  pub package_id : ℕ
  pub kind : Text
  pub status : CustomerStatus
  pub expires_at : Option ℕ
  pub pppoe_username : Option Text
  pub mac_address : Option Text
  pub credit_balance : ℤ
