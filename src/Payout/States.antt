-- ===== src/Payout/States.antt =====
-- The life of a payout (services/payout.go: `Destination`, `UnsettledPayments`, `CreatePayout`,
-- `transition`, `releasePayments`, `Cancel`, `Fail`, `MarkPaid`, `truncate`).
use zyranet_api.Base.{
  ℕ, suc, ◌+◌, zero, Bool, true, false, not, ◌&&◌, ◌||◌, Option, none, some, List, [], ◌∷◌, ◌++◌,
  ◌==◌, ltb, if◌then◌else◌, find_first, count_where, update_where, exists_where, opt_eq,
}
use zyranet_api.Int.{ℤ}
use zyranet_api.Text.{Text, text_eq, bytes, trim_space}
use zyranet_api.Models.{Zone}
use zyranet_api.Payout.Price.{Float64, FloatArith, price, effective_commission, round2}
use zyranet_api.Payout.Rows.{
  Status, pending, processing, completed, failed, cancelled, Method, unset, manual, DestType,
  Destination, Payout, Payment, Organization, PayDb, PayResult, ok, err, no_destination,
  already_open, nothing_owed, below_minimum, not_in_state, org_not_found, reference_missing,
  database_error, PayStmt, find_org, count_open, insert_payout, claim, sum_claimed, price_payout,
  transition_row, release,
}

-- What a call meets: the time, the arithmetic of float64, and which statements fail; a failed commit reads as a failure of the last
-- statement of its transaction.
pub record PayEnv : Type 0 where
  pub now : ℕ
  pub floats : FloatArith
  pub fails : PayStmt → Bool

unfoldable pub truncate : Text → ℕ → Text
truncate s zero = []
truncate [] (suc n) = []
truncate (c ∷ s) (suc n) = c ∷ truncate s n

-- Where an ISP's payouts go, if it has said so.
unfoldable pub destination : Organization → Option Destination
destination org =
    let till = trim_space org.settlement_till in
    let paybill = trim_space org.settlement_paybill in
    let account = trim_space org.settlement_account in
    if text_eq org.settlement_type (bytes "till")
    then if text_eq till []
      then none
      else some
          (record { kind = DestType.till; till_number = till; paybill_number = []; account = [] })
    else if text_eq org.settlement_type (bytes "paybill")
    then if text_eq paybill [] || text_eq account []
      then none
      else some (record {
        kind = DestType.paybill;
        till_number = [];
        paybill_number = paybill;
        account = account;
      })
    else none

abbrev pub is_zone_of : ℕ → ℕ → Zone → Bool
is_zone_of org_id zone_id z = z.id == zone_id && z.org_id == org_id

-- A completed payment collected on the shared shortcode that no payout has claimed.
unfoldable pub is_unsettled : List Zone → ℕ → Payment → Bool
is_unsettled zones org_id p =
    text_eq p.status (bytes "completed")
    && text_eq p.collected_via (bytes "platform")
    && opt_eq p.payout_id none
    && exists_where (is_zone_of org_id p.zone_id) zones

abbrev pub is_claimed_by : ℕ → Payment → Bool
is_claimed_by payout_id p = opt_eq p.payout_id (some payout_id)

unfoldable pub sum_where : (Payment → Bool) → List Payment → ℕ
sum_where test [] = 0
sum_where test (p ∷ ps) = (if test p then p.amount else 0) + sum_where test ps

-- For how many payments an ISP is owed, and how much.
unfoldable pub unsettled : FloatArith → ℕ → PayDb → ℕ × Float64
unsettled f org_id db = (
  count_where (is_unsettled db.zones org_id) db.payments,
  round2 f (f.of_cents (sum_where (is_unsettled db.zones org_id) db.payments)),
)

abbrev pub is_open : Status → Bool
is_open pending = true
is_open processing = true
is_open _ = false

abbrev pub is_pending : Status → Bool
is_pending pending = true
is_pending _ = false

abbrev pub is_processing : Status → Bool
is_processing processing = true
is_processing _ = false

-- A new row, with its money still to be filled in.
abbrev pub new_payout : ℕ → ℕ → ℕ → Destination → Payout
new_payout id org_id staff_id dest = record {
  id = id;
  org_id = org_id;
  status = pending;
  method = unset;
  gross = 0;
  percent = ℤ.pos 0;
  commission = 0;
  net = 0;
  amount = 0;
  payment_count = 0;
  dest = dest;
  reference = [];
  originator_conversation_id = [];
  conversation_id = [];
  result_desc = [];
  failure_reason = [];
  created_by = staff_id;
  sent_by = none;
  completed_at = none;
}

-- The conditional UPDATE that claims every unsettled payment.
abbrev pub claim_payments : ℕ → ℕ → PayDb → List Payment
claim_payments payout_id org_id db =
    update_where (is_unsettled db.zones org_id) (λ p. record p { payout_id = some payout_id })
      db.payments

module _ (env : PayEnv) where
  -- The last part of the transaction: price what was claimed, or roll back.
  abbrev pub price_claim :
      Organization → ℕ → Float64 → ℕ → Payout → PayDb → PayDb → PayResult Payout × PayDb
  price_claim org rows default min_amount payout claimed db =
      let f = env.floats in
      let gross = round2 f (f.of_cents (sum_where (is_claimed_by payout.id) claimed.payments)) in
      let percent = effective_commission f org.commission_percent default in
      let r = price f gross percent in
      let priced : Payout = record payout {
        gross = f.cents gross;
        percent = f.hundredths percent;
        commission = f.cents r.commission;
        net = f.cents r.net;
        amount = r.payout;
        payment_count = rows;
      } in
      if env.fails sum_claimed
      then (err database_error, db)
      else if ltb r.payout 1 || ltb r.payout min_amount
      then (err below_minimum, db)
      else if env.fails price_payout
      then (err database_error, db)
      else (ok priced, record claimed { payouts = claimed.payouts ++ priced ∷ [] })

  abbrev pub claim_into :
      Organization → Destination → ℕ → Float64 → ℕ → PayDb → PayResult Payout × PayDb
  claim_into org dest staff_id default min_amount db =
      let payout = new_payout db.next_payout org.id staff_id dest in
      let rows = count_where (is_unsettled db.zones org.id) db.payments in
      let claimed : PayDb = record db {
        payments = claim_payments payout.id org.id db;
        next_payout = suc db.next_payout;
      } in
      if env.fails insert_payout || env.fails claim
      then (err database_error, db)
      else if rows == 0
      then (err nothing_owed, db)
      else price_claim org rows default min_amount payout claimed db

  abbrev pub create_for : Option Organization → ℕ → Float64 → ℕ → PayDb → PayResult Payout × PayDb
  create_for none staff_id default min_amount db = (err org_not_found, db)
  create_for (some org) staff_id default min_amount db = elim (destination org) [
    | none ↦ (err no_destination, db)
    | some dest ↦
        if not (env.fails count_open)
          && exists_where (λ p. p.org_id == org.id && is_open p.status) db.payouts
        then (err already_open, db)
        else claim_into org dest staff_id default min_amount db
  ]

  -- The row is written with its price at once: between the two writes of the transaction nobody sees it.
  unfoldable pub create_payout : ℕ → ℕ → Float64 → ℕ → PayDb → PayResult Payout × PayDb
  create_payout org_id staff_id default min_amount db =
      if env.fails find_org
      then (err database_error, db)
      else create_for (find_first (λ o. o.id == org_id) db.orgs) staff_id default min_amount db

  -- A conditional UPDATE of one row; whether it changed one.
  abbrev pub transition : ℕ → (Status → Bool) → (Payout → Payout) → PayDb → PayResult Bool × PayDb
  transition id from updates db = if env.fails transition_row then (err database_error, db) else (
    ok (count_where (λ p. p.id == id && from p.status) db.payouts == 1),
    record db { payouts = update_where (λ p. p.id == id && from p.status) updates db.payouts },
  )

  abbrev pub release_payments : ℕ → PayDb → PayResult (Unit {0}) × PayDb
  release_payments payout_id db = if env.fails release then (err database_error, db) else (
    ok tt,
    record db {
      payments =
          update_where (is_claimed_by payout_id) (λ p. record p { payout_id = none }) db.payments;
    },
  )

  -- A transaction rolls back on an error.
  abbrev pub committed : PayResult (Unit {0}) × PayDb → PayDb → PayResult (Unit {0}) × PayDb
  committed (ok u, db') db = (ok u, db')
  committed (err e, db') db = (err e, db)

  abbrev pub release_if : ℕ → PayResult Bool × PayDb → PayDb → PayResult (Unit {0}) × PayDb
  release_if id (err e, db') db = (err e, db)
  release_if id (ok false, db') db = (err not_in_state, db)
  release_if id (ok true, db') db = committed (release_payments id db') db

  unfoldable pub cancel : ℕ → PayDb → PayResult (Unit {0}) × PayDb
  cancel id db =
      release_if id (transition id is_pending (λ p. record p { status = cancelled }) db) db

  unfoldable pub fail_payout : ℕ → Text → PayDb → PayResult (Unit {0}) × PayDb
  fail_payout id reason db =
      release_if id
        (transition id is_processing
          (λ p. record p { status = failed; failure_reason = truncate reason 500 }) db)
        db

  abbrev pub manual_if_unset : Method → Method
  manual_if_unset unset = manual
  manual_if_unset m = m

  abbrev pub in_state : PayResult Bool × PayDb → PayResult (Unit {0}) × PayDb
  in_state (err e, db) = (err e, db)
  in_state (ok false, db) = (err not_in_state, db)
  in_state (ok true, db) = (ok tt, db)

  unfoldable pub mark_paid : ℕ → ℕ → Text → PayDb → PayResult (Unit {0}) × PayDb
  mark_paid id staff_id reference db =
      if text_eq (trim_space reference) []
      then (err reference_missing, db)
      else in_state (
          transition id is_open
            (λ p. record p {
              status = completed;
              reference = truncate (trim_space reference) 100;
              completed_at = some env.now;
              sent_by = some staff_id;
              method = manual_if_unset p.method;
            })
            db)
