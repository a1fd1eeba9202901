-- ===== src/Mpesa/Stk/Rows.antt =====
-- The tables that a customer's payment moves (models/payment.go, models/customer_device.go,
-- models/credit_log.go, models/c2b_transaction.go), and what a call meets.
use zyranet_api.Base.{ℕ, Bool, Option, List, update_where}
use zyranet_api.Int.{ℤ}
use zyranet_api.Text.{Text}
use zyranet_api.Models.{Customer}
use zyranet_api.Ledger.Tx.{Db, Env}
use zyranet_api.Mpesa.Creds.{Creds}
use zyranet_api.Mpesa.Routes.{Channel}
use zyranet_api.Mpesa.C2b.Park.{Unmatched}

pub data StkStatus : Type 0 where
  pending completed failed : StkStatus

-- The amount is in hundredths; `transaction_id` is Safaricom's CheckoutRequestID. A receipt or a reason
-- that is not there is the empty text.
pub record StkPayment : Type 0 where
  pub id : ℕ
  pub customer_id : Option ℕ
  pub voucher_id : Option ℕ
  pub zone_id : ℕ
  pub package_id : Option ℕ
  pub phone : Text
  pub amount : ℤ
  pub method : Text
  pub transaction_id : Option Text
  pub receipt : Text
  pub status : StkStatus
  pub status_reason : Text
  pub mac_address : Text
  pub ip_address : Text
  pub collected_via : Channel
  pub created_at : ℕ

pub record CustomerDevice : Type 0 where
  pub id : ℕ
  pub customer_id : ℕ
  pub mac_address : Text
  pub ip_address : Option Text
  pub last_seen_at : ℕ

pub record CreditLog : Type 0 where
  pub customer_id : ℕ
  pub amount : ℤ
  pub note : Text

pub data ActionKind : Type 0 where
  whitelist_mac push_voucher reactivate_customer : ActionKind

pub data ActionStatus : Type 0 where
  waiting running done gave_up : ActionStatus

-- A change of a router that is owed to a customer who has paid.
pub record RouterAction : Type 0 where
  pub id : ℕ
  pub zone_id : ℕ
  pub payment_id : Option ℕ
  pub action : ActionKind
  pub customer_id : Option ℕ
  pub voucher_id : Option ℕ
  pub package_id : Option ℕ
  pub mac_address : Text
  pub status : ActionStatus
  pub attempts : ℕ
  pub next_attempt_at : ℕ
  pub last_error : Text
  pub updated_at : ℕ

-- `base` has the tables of zones, packages, customers and vouchers; `throttles` is the process's memory
-- of when it last asked Safaricom about a push.
pub record StkState : Type 0 where
  pub base : Db
  pub payments : List StkPayment
  pub devices : List CustomerDevice
  pub next_device : ℕ
  pub credit_logs : List CreditLog
  pub actions : List RouterAction
  pub next_action : ℕ
  pub unmatched : List Unmatched
  pub throttles : List (Text × ℕ)

-- The statements that can fail. A failure is an error of the database; the source looks at it only
-- where the model has a branch for it.
pub data StkStmt : Type 0 where
  find_payment complete_payment upgrade_receipt fail_payment underpay_payment : StkStmt
  find_customer count_customer create_customer update_customer link_customer : StkStmt
  -- The first or the second telephone number of a payment.
  find_by_phone : ℕ → StkStmt
  adjust_credit log_credit find_package find_voucher release_voucher link_voucher : StkStmt
  find_zone claim_action read_action finish_action requeue_actions find_actions : StkStmt
  save_action find_device create_device save_device find_past_name find_pending : StkStmt

-- What a call meets: the time, the calendar's month, what `ResolveMpesaCreds` answers for a zone, what
-- the generation of a voucher meets (nothing, where no generator is configured), and which statements
-- fail.
pub record StkEnv : Type 0 where
  pub now : ℕ
  pub add_month : ℕ → ℕ
  pub creds : ℕ → Creds
  pub vouchers : Option Env
  pub fails : StkStmt → Bool

-- Whether a call ended without an error.
pub data Handled : Type 0 where
  handled broke : Handled

abbrev pub with_customers : (List Customer → List Customer) → StkState → StkState
with_customers f s = record s { base = record s.base { customers = f s.base.customers } }

abbrev pub update_payments : (StkPayment → Bool) → (StkPayment → StkPayment) → StkState → StkState
update_payments test f s = record s { payments = update_where test f s.payments }
