-- ===== src/Payout/Create.antt =====
-- What a new payout claims (services/payout.go, `CreatePayout`).
use zyranet_api.Base.{
  ℕ, suc, ◌<◌, ◌≤◌, ◌≡◌, ◌≢◌, refl, ap, ◌∙◌, sym, true, Option, none, some, List, [], ◌∷◌, ◌++◌,
  arith, ◌==◌, find_first, count_where, update_where, All, Bool-cases, Option-cases, inl, inr,
  subst, count_where-append,
}
use zyranet_api.Int.{ℤ}
use zyranet_api.Models.{Zone}
use zyranet_api.Payout.Rows.{pending, Payout, Payment, PayDb, ok, Organization, Destination}
use zyranet_api.Payout.Price.{Float64, FloatArith, price, effective_commission, round2}
use zyranet_api.Payout.States.{
  PayEnv, is_claimed_by, is_unsettled, create_payout, claim_into, destination, sum_where,
}
use zyranet_api.Payout.Invariant.{status_of, is_live, is_backed, has_id, UniqueIds, IsSound}
use zyranet_api.Payout.Laws.{backed_mono}

pub status_of-below : (n : ℕ) (xs : List Payout) → All (λ p. p.id < n) xs → status_of n xs ≡ none
status_of-below n [] h = refl
status_of-below n (x ∷ xs) h = ground (arith, status_of-below n xs h.1)

count-below : (n : ℕ) (xs : List Payout) → All (λ p. p.id < n) xs → count_where (has_id n) xs ≡ 0
count-below n [] h = refl
count-below n (x ∷ xs) h = ground (arith, count-below n xs h.1)

append-UniqueIds :
    (xs : List Payout) (p : Payout)
    → All (λ x. x.id < p.id) xs
    → UniqueIds xs
    → UniqueIds (xs ++ p ∷ [])
append-UniqueIds [] p b h = (refl, tt)
append-UniqueIds (x ∷ xs) p b h = (
  count_where-append (has_id x.id) xs (p ∷ []) ∙ ground (arith, h.0, b.0),
  append-UniqueIds xs p b.1 h.1,
)

append-below :
    (n : ℕ) (xs : List Payout) (p : Payout)
    → p.id ≡ n
    → All (λ x. x.id < n) xs
    → All (λ x. x.id < suc n) (xs ++ p ∷ [])
append-below n [] p e h = (omega arith, tt)
append-below n (x ∷ xs) p e h = (omega (arith, h.0), append-below n xs p e h.1)

is_live-append :
    (j : ℕ) (xs : List Payout) (p : Payout)
    → is_live (status_of j xs) ≡ true
    → is_live (status_of j (xs ++ p ∷ [])) ≡ true
is_live-append j [] p h = absurd (ground arith)
is_live-append j (x ∷ xs) p h = ground (arith, is_live-append j xs p)

status_of-append_new :
    (xs : List Payout) (p : Payout)
    → status_of p.id xs ≡ none
    → status_of p.id (xs ++ p ∷ []) ≡ some p.status
status_of-append_new [] p h = ground arith
status_of-append_new (x ∷ xs) p h = ground (arith, status_of-append_new xs p)

-- A claim that is backed is not of an id that has no row.
not_own :
    (n j : ℕ) (xs : List Payout) (o : Option ℕ)
    → status_of n xs ≡ none
    → is_backed xs o ≡ true
    → o ≡ some j
    → (j == n) ≢ true
not_own n j xs o e b taken same =
    let same_key : j ≡ n = ground arith in
    let at_j : is_live (status_of j xs) ≡ true = subst (λ t. is_backed xs t ≡ true) taken b in
    let at_n : is_live (status_of n xs) ≡ true =
      subst (λ t. is_live (status_of t xs) ≡ true) same_key at_j in
    ground arith

module _ (zones : List Zone) (org_id n : ℕ) where
  abbrev claimed : List Payment → List Payment
  claimed = update_where (is_unsettled zones org_id) (λ p. record p { payout_id = some n })

  claimed-backed :
      (xs : List Payout) (ps : List Payment)
      → is_live (status_of n xs) ≡ true
      → All (λ p. is_backed xs p.payout_id ≡ true) ps
      → All (λ p. is_backed xs p.payout_id ≡ true) (claimed ps)
  claimed-backed xs [] live h = tt
  claimed-backed xs (p ∷ ps) live h = (ground (arith, h.0), claimed-backed xs ps live h.1)

  -- What carries the new id is what was unsettled.
  pub sum-claimed :
      (xs : List Payout) (ps : List Payment)
      → status_of n xs ≡ none
      → All (λ p. is_backed xs p.payout_id ≡ true) ps
      → sum_where (is_claimed_by n) (claimed ps) ≡ sum_where (is_unsettled zones org_id) ps
  unfolding sum_where
  sum-claimed xs [] e h = refl
  sum-claimed xs (p ∷ ps) e h = elim (Option-cases p.payout_id) [
    | inl free ↦ ground (arith, sum-claimed xs ps e h.1)
    | inr (j, taken) ↦ elim (Bool-cases (j == n)) [
      | inl same ↦ absurd (not_own n j xs p.payout_id e h.0 taken same)
      | inr other ↦ ground (arith, sum-claimed xs ps e h.1)
    ]
  ]

  pub none_left : (ps : List Payment) → count_where (is_unsettled zones org_id) (claimed ps) ≡ 0
  unfolding is_unsettled
  none_left [] = refl
  none_left (p ∷ ps) = ground (arith, none_left ps)

-- A creation that succeeds, taken apart.
pub create_payout_steps :
    (env : PayEnv) (org_id staff_id : ℕ) (default : Float64) (min_amount : ℕ) (db db' : PayDb)
    (p : Payout)
    → create_payout env org_id staff_id default min_amount db ≡ (ok p, db')
    → (org : Organization) × (dest : Destination) × (find_first (λ o. o.id == org_id) db.orgs
        ≡ some org)
      × (claim_into env org dest staff_id default min_amount db ≡ (ok p, db'))
unfolding create_payout
create_payout_steps env org_id staff_id default min_amount db db' p h =
    elim (Option-cases (find_first (λ o. o.id == org_id) db.orgs)) [
      | inl gone ↦ absurd (ground arith)
      | inr (org, found) ↦ elim (Option-cases (destination org)) [
        | inl unset ↦ absurd (ground arith)
        | inr (dest, set) ↦ (org, dest, ground arith, ground arith)
      ]
    ]

-- The payout that is written, and the database after it.
pub record Created (f : FloatArith) (default : Float64) (org_id min_amount : ℕ) (db db' : PayDb)
    (p : Payout) : Type 0 where
  pub own_rate : Option ℤ
  pub total : Float64
  pub id : p.id ≡ db.next_payout
  pub status : p.status ≡ pending
  pub rows : p.payment_count ≡ count_where (is_unsettled db.zones org_id) db.payments
  pub summed :
      total
      ≡ round2 f (
          f.of_cents (
            sum_where (is_claimed_by db.next_payout) (
              update_where
                (is_unsettled db.zones org_id)
                (λ q. record q { payout_id = some db.next_payout })
                db.payments)))
  pub gross : p.gross ≡ f.cents total
  pub priced :
      (p.commission ≡ f.cents (price f total (effective_commission f own_rate default)).commission)
      × (p.net ≡ f.cents (price f total (effective_commission f own_rate default)).net)
      × (p.amount ≡ (price f total (effective_commission f own_rate default)).payout)
  pub enough : (1 ≤ p.amount) × (min_amount ≤ p.amount)
  pub after : db' ≡ record db {
    payments =
        update_where
          (is_unsettled db.zones org_id)
          (λ q. record q { payout_id = some db.next_payout })
          db.payments;
    payouts = db.payouts ++ p ∷ [];
    next_payout = suc db.next_payout;
  }

pub claim_into-Created :
    (env : PayEnv) (org : Organization) (dest : Destination) (staff_id : ℕ) (default : Float64)
    (min_amount : ℕ) (db db' : PayDb) (p : Payout)
    → claim_into env org dest staff_id default min_amount db ≡ (ok p, db')
    → Created env.floats default org.id min_amount db db' p
claim_into-Created env org dest staff_id default min_amount db db' p h = record {
  id = ground arith;
  status = ground arith;
  own_rate = org.commission_percent;
  total = round2 env.floats (
      env.floats.of_cents (
        sum_where (is_claimed_by db.next_payout) (
          update_where (is_unsettled db.zones org.id)
            (λ q. record q { payout_id = some db.next_payout }) db.payments)));
  summed = refl;
  rows = ground arith;
  gross = ground arith;
  priced = ground arith;
  enough = ground arith;
  after = ground arith;
}

-- The invariant after the claim.
pub created-IsSound :
    (org_id : ℕ) (db : PayDb) (p : Payout)
    → p.id ≡ db.next_payout
    → p.status ≡ pending
    → IsSound db
    → IsSound (record db {
      payments = claimed db.zones org_id db.next_payout db.payments;
      payouts = db.payouts ++ p ∷ [];
      next_payout = suc db.next_payout;
    })
created-IsSound org_id db p own st v =
    let fresh = status_of-below db.next_payout db.payouts v.below in
    let new : status_of db.next_payout (db.payouts ++ p ∷ []) ≡ some p.status =
      subst (λ i. status_of i (db.payouts ++ p ∷ []) ≡ some p.status) own
        (status_of-append_new db.payouts p
          (subst (λ i. status_of i db.payouts ≡ none) (sym own) fresh)) in
    record {
      unique =
          append-UniqueIds db.payouts p
            (subst (λ i. All (λ x. x.id < i) db.payouts) (sym own) v.below) v.unique;
      below = append-below db.next_payout db.payouts p own v.below;
      backed =
          claimed-backed db.zones org_id db.next_payout (db.payouts ++ p ∷ []) db.payments
            (ap is_live (new ∙ ap some st))
            (backed_mono db.payouts (db.payouts ++ p ∷ []) db.payments
              (λ j. is_live-append j db.payouts p) v.backed);
    }
