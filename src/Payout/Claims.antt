-- ===== src/Payout/Claims.antt =====
-- What a payout claims, and the invariant over every call of the service (services/payout.go).
use zyranet_api.Base.{
  ℕ, false, ap, ◌+◌, ◌*◌, ◌<◌, ◌≤◌, ◌≡◌, ◌∙◌, arith, ◌==◌, subst, find_first_holds,
}
use zyranet_api.Payout.Rows.{Payout, PayDb, ok}
use zyranet_api.Payout.Price.{Float64, FloatLaws, exact_cents, price_splits, round2}
use zyranet_api.Payout.States.{PayEnv, sum_where, is_unsettled, unsettled, create_payout}
use zyranet_api.Payout.Invariant.{IsSound}
use zyranet_api.Payout.Create.{
  Created, create_payout_steps, claim_into-Created, sum-claimed, none_left, status_of-below,
}

pub create_payout-Created :
    (env : PayEnv) (org_id staff_id : ℕ) (default : Float64) (min_amount : ℕ) (db db' : PayDb)
    (p : Payout)
    → create_payout env org_id staff_id default min_amount db ≡ (ok p, db')
    → Created env.floats default org_id min_amount db db' p
create_payout-Created env org_id staff_id default min_amount db db' p h =
    let (org, dest, found, claimed) =
      create_payout_steps env org_id staff_id default min_amount db db' p h in
    let here = find_first_holds (λ o. o.id == org_id) db.orgs org found in
    let this : org.id ≡ org_id = ground arith in
    subst (λ i. Created env.floats default i min_amount db db' p) this
      (claim_into-Created env org dest staff_id default min_amount db db' p claimed)

-- A payout that is created from a sound database, with less owed than where a float64 loses cents and a
-- default rate that is a number: its count and its gross are those of exactly the payments that the
-- organization was owed for, as the query for what is owed gives them too; the stored commission and net
-- make up the gross; the payout is the whole shillings of the net, at least one, and at least the
-- minimum; and none of the organization's payments is left unsettled.
pub create_payout_claims :
    (env : PayEnv) (org_id staff_id : ℕ) (default : Float64) (min_amount : ℕ) (db db' : PayDb)
    (p : Payout)
    → FloatLaws env.floats
    → env.floats.is_nan default ≡ false
    → sum_where (is_unsettled db.zones org_id) db.payments < exact_cents
    → IsSound db
    → create_payout env org_id staff_id default min_amount db ≡ (ok p, db')
    → (p.payment_count ≡ (unsettled env.floats org_id db).0)
      × (p.gross ≡ env.floats.cents (unsettled env.floats org_id db).1)
      × (p.gross ≡ sum_where (is_unsettled db.zones org_id) db.payments)
      × (p.commission + p.net ≡ p.gross)
      × (100 * p.amount ≤ p.net)
      × (p.net < 100 * p.amount + 100)
      × (1 ≤ p.amount)
      × (min_amount ≤ p.amount)
      × ((unsettled env.floats org_id db').0 ≡ 0)
unfolding unsettled
create_payout_claims env org_id staff_id default min_amount db db' p laws number small v h =
    let f = env.floats in
    let owed = sum_where (is_unsettled db.zones org_id) db.payments in
    let c = create_payout-Created env org_id staff_id default min_amount db db' p h in
    let fresh = status_of-below db.next_payout db.payouts v.below in
    let claimed =
      sum-claimed db.zones org_id db.next_payout db.payouts db.payments fresh v.backed in
    let read : c.total ≡ round2 f (f.of_cents owed) =
      c.summed ∙ ap (λ n. round2 f (f.of_cents n)) claimed in
    let exact : c.total ≡ f.of_cents owed = read ∙ laws.rounded owed small in
    let gross : p.gross ≡ owed = c.gross ∙ ap f.cents exact ∙ laws.stored owed small in
    let (whole, floor, ceiling) = price_splits f c.own_rate default owed laws number small in
    let (same_commission, same_net, same_amount) = c.priced in
    (
      c.rows,
      c.gross ∙ ap f.cents read,
      gross,
      rw (same_commission, same_net, gross, exact) whole,
      rw (same_net, same_amount, exact) floor,
      rw (same_net, same_amount, exact) ceiling,
      c.enough.0,
      c.enough.1,
      rw c.after (none_left db.zones org_id db.next_payout db.payments),
    )
