-- ===== src/Ledger/Checks.antt =====
-- The checks of an issue before its writes, and what the batch costs (services/agent_ledger.go,
-- `IssueToAgent`).
use zyranet_api.Base.{ℕ, ◌||◌, Option, none, some, ltb, if◌then◌else◌}
use zyranet_api.Int.{ℤ, pos, negsuc, ltb_ℤ}
use zyranet_api.Words.{add64, sub64, mul64, neg64}
use zyranet_api.Text.{Text, text_eq, bytes}
use zyranet_api.Ledger.Rows.{Agent, Funding, credit, float, upfront}
use zyranet_api.Ledger.Tx.{
  Tx, pure, refuse_if, Refusal, bad_quantity, upfront_not_owner, bad_funding, over_credit,
  short_float,
}
use zyranet_api.Ledger.Commission.{commission_for}
use zyranet_api.Ledger.Money.{max64}
use zyranet_api.Ledger.Idempotency.{Actor, is_owner}
use zyranet_api.Ledger.Entries.{valid_method}

abbrev pub max_agent_batch : ℕ
max_agent_batch = 500

pub record IssueRequest : Type 0 where
  pub agent_id : ℕ
  pub zone_id : ℕ
  pub package_id : ℕ
  pub quantity : ℤ
  pub funding : Text
  pub method : Text
  pub reference : Text
  pub key : Text

-- The checks made before any query: the quantity and the funding, or the refusal.
pub data Checked : Type 0 where
  accepted : ℕ → Funding → Checked
  rejected : Refusal → Checked

unfoldable pub parse_funding : Text → Option Funding
parse_funding s =
    if text_eq s (bytes "credit")
    then some credit
    else if text_eq s (bytes "float")
    then some float
    else if text_eq s (bytes "upfront")
    then some upfront
    else none

-- Only the owner confirms that money was received.
check_funding : Actor → Text → Text → ℕ → Option Funding → Checked
check_funding actor method reference n none = rejected bad_funding
check_funding actor method reference n (some upfront) =
    if is_owner actor
    then elim (valid_method method reference) [ none ↦ accepted n upfront | some r ↦ rejected r ]
    else rejected upfront_not_owner
check_funding actor method reference n (some funding) = accepted n funding

check_quantity : Actor → Text → Text → ℤ → Option Funding → Checked
check_quantity actor method reference (negsuc n) funding = rejected bad_quantity
check_quantity actor method reference (pos n) funding =
    if ltb n 1 || ltb max_agent_batch n
    then rejected bad_quantity
    else check_funding actor method reference n funding

-- With the method and the reference already normalised.
unfoldable pub check_issue : Actor → IssueRequest → Text → Text → Checked
unfolding check_quantity check_funding
check_issue actor req method reference =
    check_quantity actor method reference req.quantity (parse_funding req.funding)

-- What a batch costs.
pub record Terms : Type 0 where
  pub face : ℤ
  pub commission : ℤ
  pub gross : ℤ
  pub commission_total : ℤ
  pub net : ℤ

unfoldable pub terms_of : Agent → ℤ → ℕ → Terms
terms_of agent face quantity =
    let commission = commission_for agent.commission_type agent.commission_value face in
    let gross = mul64 face (pos quantity) in
    let total = mul64 commission (pos quantity) in
    record {
      face = face;
      commission = commission;
      gross = gross;
      commission_total = total;
      net = sub64 gross total;
    }

-- The balance that each kind of funding allows.
unfoldable pub check_limit : Funding → ℤ → ℤ → ℤ → Tx (Unit {0})
check_limit credit balance net limit =
    refuse_if (ltb_ℤ limit (add64 balance net))
      (over_credit net (max64 (sub64 limit balance) (pos 0)))
check_limit float balance net limit =
    refuse_if (ltb_ℤ (pos 0) (add64 balance net)) (short_float net (max64 (neg64 balance) (pos 0)))
check_limit upfront balance net limit = pure tt
