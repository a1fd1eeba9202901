-- ===== src/Ledger/Rows.antt =====
-- The tables of the agent ledger (models/agent.go). Amounts are int64 cents, signed from the ISP's
-- side: a positive amount is owed by the agent.
use zyranet_api.Base.{ℕ, Option, List, Bool, true, false}
use zyranet_api.Int.{ℤ}
use zyranet_api.Text.{Text}

-- `zones` is the agent's part of the table `agent_zones`.
pub record Agent : Type 0 where
  pub id : ℕ
  pub org_id : ℕ
  pub commission_type : Text
  pub commission_value : ℤ
  pub credit_limit : ℤ
  pub status : Text
  pub zones : List ℕ

pub data Funding : Type 0 where
  credit float upfront : Funding

pub record Batch : Type 0 where
  pub id : ℕ
  pub org_id : ℕ
  pub agent_id : ℕ
  pub zone_id : ℕ
  pub package_id : ℕ
  pub quantity : ℕ
  pub face : ℤ
  pub commission : ℤ
  pub funding : Funding
  pub created_by : ℕ
  pub created_at : ℕ

pub data HeldStatus : Type 0 where
  issued sold returned : HeldStatus

abbrev pub is_issued : HeldStatus → Bool
is_issued issued = true
is_issued _ = false

-- A voucher in an agent's hands.
pub record AgentVoucher : Type 0 where
  pub id : ℕ
  pub org_id : ℕ
  pub agent_id : ℕ
  pub batch_id : ℕ
  pub voucher_id : ℕ
  pub face : ℤ
  pub commission : ℤ
  pub status : HeldStatus
  pub sold_at : Option ℕ
  pub returned_at : Option ℕ
  pub created_at : ℕ

pub data EntryType : Type 0 where
  issue commission return commission_reversal handover adjustment reversal : EntryType

abbrev pub is_handover : EntryType → Bool
is_handover handover = true
is_handover _ = false

-- Only these can be reversed.
abbrev pub is_reversible : EntryType → Bool
is_reversible handover = true
is_reversible adjustment = true
is_reversible _ = false

pub record Entry : Type 0 where
  pub id : ℕ
  pub org_id : ℕ
  pub agent_id : ℕ
  pub kind : EntryType
  pub amount : ℤ
  pub batch_id : Option ℕ
  pub voucher_count : ℕ
  pub method : Text
  pub reference : Text
  pub note : Text
  pub reverses_id : Option ℕ
  pub created_by : ℕ
  pub created_at : ℕ

pub record IdemKey : Type 0 where
  pub org_id : ℕ
  pub key : Text
  pub agent_id : ℕ
  pub operation : Text
  pub hash : Text
  pub result : ℕ
  pub created_at : ℕ
