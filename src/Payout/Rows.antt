-- ===== src/Payout/Rows.antt =====
-- The tables that payouts work on (models/payout.go, models/payment.go, models/organization.go), and
-- the errors of the service (services/payout.go).
use zyranet_api.Base.{ℕ, Bool, Option, List}
use zyranet_api.Int.{ℤ}
use zyranet_api.Text.{Text}
use zyranet_api.Models.{Zone}

pub data Status : Type 0 where
  pending processing completed failed cancelled : Status

pub data Method : Type 0 where
  unset b2b manual : Method

pub data DestType : Type 0 where
  till paybill : DestType

pub record Destination : Type 0 where
  pub kind : DestType
  pub till_number : Text
  pub paybill_number : Text
  pub account : Text

pub record Payout : Type 0 where
  pub id : ℕ
  pub org_id : ℕ
  pub status : Status
  pub method : Method
  pub gross : ℕ
  pub percent : ℤ
  pub commission : ℕ
  pub net : ℕ
  pub amount : ℕ
  pub payment_count : ℕ
  pub dest : Destination
  pub reference : Text
  pub originator_conversation_id : Text
  pub conversation_id : Text
  pub result_desc : Text
  pub failure_reason : Text
  pub created_by : ℕ
  pub sent_by : Option ℕ
  pub completed_at : Option ℕ

-- The columns of a payment that payouts read; the amount is in cents.
pub record Payment : Type 0 where
  pub id : ℕ
  pub zone_id : ℕ
  pub amount : ℕ
  pub status : Text
  pub collected_via : Text
  pub payout_id : Option ℕ

pub record Organization : Type 0 where
  pub id : ℕ
  pub commission_percent : Option ℤ
  pub settlement_type : Text
  pub settlement_till : Text
  pub settlement_paybill : Text
  pub settlement_account : Text
  pub direct_settlement : Bool

pub record PayDb : Type 0 where
  pub orgs : List Organization
  pub zones : List Zone
  pub payments : List Payment
  pub payouts : List Payout
  pub next_payout : ℕ

pub data PayError : Type 0 where
  no_destination already_open nothing_owed below_minimum not_in_state : PayError
  org_not_found payout_not_found reference_missing not_prepared rejected outcome_unknown : PayError
  invalid_result database_error : PayError

pub data PayResult (A : Type 0) : Type 0 where
  ok : A → PayResult A
  err : PayError → PayResult A

-- The statements whose errors the service looks at.
pub data PayStmt : Type 0 where
  find_org count_open insert_payout claim sum_claimed price_payout transition_row release : PayStmt
  find_payout find_setting update_row : PayStmt
