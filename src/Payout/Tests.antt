-- ===== src/Payout/Tests.antt =====
-- Runs of payouts at concrete values (services/payout.go).
use zyranet_api.Base.{
  ℕ, ◌/◌, ◌+◌, ◌*◌, ◌<◌, ◌≤◌, ◌≡◌, refl, false, Option, none, some, List, [], ◌∷◌, arith,
}
use zyranet_api.Int.{pos}
use zyranet_api.Text.{bytes, text_eq, trim_space}
use zyranet_api.Models.{Zone}
use zyranet_api.Payout.Rows.{
  completed, manual, DestType, Destination, Payout, Payment, Organization, PayDb, ok,
}
use zyranet_api.Payout.Price.{exact_cents, price, effective_commission, round2}
use zyranet_api.Payout.Samples.{decimals, decimals-FloatLaws}
use zyranet_api.Payout.States.{
  PayEnv, is_unsettled, unsettled, create_payout, sum_where, destination, cancel, fail_payout,
  mark_paid, new_payout, truncate,
}
use zyranet_api.Payout.Invariant.{status_of, IsSound}
use zyranet_api.Payout.Claims.{create_payout_claims}
use zyranet_api.Payout.Runs.{
  Call, create, give_up, report_failure, confirm, perform, perform_all, perform_all-IsSound,
}

abbrev env : PayEnv
env = record { now = 5; floats = decimals; fails = λ s. false }

abbrev zone : Zone
zone = record {
  id = 4;
  org_id = 1;
  name = [];
  status = bytes "active";
  last_seen_at = none;
  last_status = [];
  router_ip = [];
  public_ip = [];
  router_name = [];
}

abbrev till_org : Organization
till_org = record {
  id = 1;
  commission_percent = some (pos 500);
  settlement_type = bytes "till";
  settlement_till = bytes " 5123 ";
  settlement_paybill = [];
  settlement_account = [];
  direct_settlement = false;
}

abbrev till_dest : Destination
till_dest = record {
  kind = DestType.till;
  till_number = bytes "5123";
  paybill_number = [];
  account = [];
}

-- A payment of the given amount, by platform, that some payout may have claimed.
abbrev payment : ℕ → ℕ → Option ℕ → Payment
payment id amount payout_id = record {
  id = id;
  zone_id = 4;
  amount = amount;
  status = bytes "completed";
  collected_via = bytes "platform";
  payout_id = payout_id;
}

abbrev done_payout : Payout
done_payout = record (new_payout 1 1 7 till_dest) { status = completed; method = manual }

-- One payment is paid out already, two are owed.
abbrev shop : PayDb
shop = record {
  orgs = till_org ∷ [];
  zones = zone ∷ [];
  payments = payment 1 5000 (some 1) ∷ payment 2 3000 none ∷ payment 3 2050 none ∷ [];
  payouts = done_payout ∷ [];
  next_payout = 2;
}

abbrev next : Payout
next = record (new_payout 2 1 7 till_dest) {
  gross = 5050;
  percent = pos 500;
  commission = 253;
  net = 4797;
  amount = 47;
  payment_count = 2;
}

abbrev claimed_shop : PayDb
claimed_shop = record shop {
  payments = payment 1 5000 (some 1) ∷ payment 2 3000 (some 2) ∷ payment 3 2050 (some 2) ∷ [];
  payouts = done_payout ∷ next ∷ [];
  next_payout = 3;
}

create_test : create_payout env 1 7 100_000 10 shop ≡ (ok next, claimed_shop)
unfolding create_payout destination trim_space text_eq is_unsettled sum_where price
    effective_commission round2
create_test = refl

shop-IsSound : IsSound shop
shop-IsSound = record {
  unique = (refl, tt);
  below = (omega arith, tt);
  backed = (refl, (refl, (refl, tt)));
}

owed_small : sum_where (is_unsettled (zone ∷ []) 1) shop.payments < exact_cents
unfolding sum_where is_unsettled text_eq
owed_small = omega arith

create_payout_claims_example :
    (2 ≡ (unsettled decimals 1 shop).0)
    × (5050 ≡ (unsettled decimals 1 shop).1 / 100)
    × (5050 ≡ sum_where (is_unsettled (zone ∷ []) 1) shop.payments)
    × (253 + 4797 ≡ 5050)
    × (100 * 47 ≤ 4797)
    × (4797 < 100 * 47 + 100)
    × (1 ≤ 47)
    × (10 ≤ 47)
    × ((unsettled decimals 1 claimed_shop).0 ≡ 0)
create_payout_claims_example =
    create_payout_claims env 1 7 100_000 10 shop claimed_shop next decimals-FloatLaws refl
      owed_small shop-IsSound create_test

-- A payout is made, given up, made again and confirmed; the completed one cannot be failed.
abbrev calls : List (PayEnv × Call)
calls =
    (env, create 1 7 100_000 10)
    ∷ (env, give_up 2)
    ∷ (env, report_failure 1 (bytes "lost"))
    ∷ (env, create 1 7 100_000 10)
    ∷ (env, confirm 3 7 (bytes "QWE123"))
    ∷ []

calls_test : status_of 3 (perform_all calls shop).payouts ≡ some completed
unfolding perform_all perform create_payout destination trim_space text_eq is_unsettled sum_where
    price effective_commission round2 cancel fail_payout mark_paid truncate
calls_test = refl

perform_all-IsSound_example : IsSound (perform_all calls shop)
perform_all-IsSound_example = perform_all-IsSound calls shop shop-IsSound
