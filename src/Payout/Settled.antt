-- ===== src/Payout/Settled.antt =====
-- A completed payout is final (services/payout.go: `CreatePayout`, `Cancel`, `Fail`, `MarkPaid`).
use zyranet_api.Base.{
  ℕ, ◌≡◌, ◌≢◌, refl, ◌∙◌, sym, Bool, true, false, ◌&&◌, some, List, [], ◌∷◌, ◌++◌, arith, ◌==◌,
  update_where, select, Bool-cases, Option-cases, inl, inr, subst, ◌⊎◌,
}
use zyranet_api.Text.{Text}
use zyranet_api.Models.{Zone}
use zyranet_api.Payout.Price.{Float64}
use zyranet_api.Payout.Rows.{Status, completed, failed, cancelled, Payout, Payment, PayDb}
use zyranet_api.Payout.States.{
  PayEnv, is_claimed_by, is_unsettled, is_open, is_pending, is_processing, transition, release_if,
  cancel, fail_payout, mark_paid, create_payout, truncate,
}
use zyranet_api.Payout.Invariant.{
  status_of, IsSound, status_of-updated_kept, status_of-updated_ne, count-missed,
}
use zyranet_api.Payout.Laws.{released, release_if-cases, mark_paid-cases, paid}
use zyranet_api.Payout.Create.{status_of-below}
use zyranet_api.Payout.Claims.{create_payout-Created}
use zyranet_api.Payout.Runs.{
  Call, create, give_up, report_failure, confirm, perform, PayResult-cases,
  create_payout_rolls_back,
}

-- The payments that a payout has claimed.
abbrev pub claimed_by : ℕ → List Payment → List Payment
claimed_by i = select (is_claimed_by i)

-- A payout stays completed, with the payments it had.
pub record StaysPaid (i : ℕ) (db db' : PayDb) : Type 0 where
  pub status : status_of i db'.payouts ≡ some completed
  pub payments : claimed_by i db'.payments ≡ claimed_by i db.payments

pub released-claimed_by :
    (i j : ℕ) (ps : List Payment) → i ≢ j → claimed_by i (released j ps) ≡ claimed_by i ps
released-claimed_by i j [] n = refl
released-claimed_by i j (p ∷ ps) n = elim (Option-cases p.payout_id) [
  | inl free ↦ ground (arith, released-claimed_by i j ps n)
  | inr (k, taken) ↦ ground (arith, released-claimed_by i j ps n)
]

new_claim-claimed_by :
    (zones : List Zone) (org_id n i : ℕ) (ps : List Payment)
    → i ≢ n
    → claimed_by i
        (update_where (is_unsettled zones org_id) (λ p. record p { payout_id = some n }) ps)
      ≡ claimed_by i ps
unfolding is_unsettled
new_claim-claimed_by zones org_id n i [] ne = refl
new_claim-claimed_by zones org_id n i (p ∷ ps) ne = elim (Option-cases p.payout_id) [
  | inl free ↦ ground (arith, new_claim-claimed_by zones org_id n i ps ne)
  | inr (k, taken) ↦ ground (arith, new_claim-claimed_by zones org_id n i ps ne)
]

pub status_of-append_old :
    (i : ℕ) (xs : List Payout) (p : Payout) (st : Status)
    → status_of i xs ≡ some st
    → status_of i (xs ++ p ∷ []) ≡ some st
status_of-append_old i [] p st h = absurd (ground arith)
status_of-append_old i (x ∷ xs) p st h = ground (arith, status_of-append_old i xs p st)

-- Giving up a payout refuses one that its update does not look for, and leaves the others alone.
pub release_if-StaysPaid :
    (env : PayEnv) (i j : ℕ) (from : Status → Bool) (u : Payout → Payout) (db : PayDb)
    → ((p : Payout) → (u p).id ≡ p.id)
    → from completed ≡ false
    → IsSound db
    → status_of i db.payouts ≡ some completed
    → StaysPaid i db (release_if env j (transition env j from u db) db).1
release_if-StaysPaid env i j from u db keep skip v h = elim (Bool-cases (i == j)) [
  | inl same ↦
      let this : i ≡ j = ground arith in
      let missed =
        count-missed j from u keep db.payouts completed v.unique
          (subst (λ k. status_of k db.payouts ≡ some completed) this h) skip in
      let unchanged : (release_if env j (transition env j from u db) db).1 ≡ db = ground arith in
      subst (StaysPaid i db) (sym unchanged) (record { status = h; payments = refl })
  | inr other ↦
      let ne : i ≢ j = ground arith in
      elim (release_if-cases env j from u db) [
        | inl unchanged ↦
            subst (StaysPaid i db) (sym unchanged) (record { status = h; payments = refl })
        | inr changed ↦ subst (StaysPaid i db) (sym changed) (record {
          status = status_of-updated_ne j from u keep i db.payouts ne ∙ h;
          payments = released-claimed_by i j db.payments ne;
        })
      ]
]

mark_paid-StaysPaid :
    (env : PayEnv) (i j staff_id : ℕ) (reference : Text) (db : PayDb)
    → status_of i db.payouts ≡ some completed
    → StaysPaid i db (mark_paid env j staff_id reference db).1
mark_paid-StaysPaid env i j staff_id reference db h =
    elim (mark_paid-cases env j staff_id reference db) [
      | inl unchanged ↦
          subst (StaysPaid i db) (sym unchanged) (record { status = h; payments = refl })
      | inr changed ↦
          subst (StaysPaid i db) (sym changed)
            (record { status = kept (Bool-cases (i == j)); payments = refl })
    ]
  where
    kept :
        ((i == j) ≡ true) ⊎ ((i == j) ≡ false)
        → status_of i (
            update_where
              (λ p. p.id == j && is_open p.status)
              (paid env staff_id reference)
              db.payouts)
          ≡ some completed
    kept (inl same) =
        let this : i ≡ j = ground arith in
        rw this (
          status_of-updated_kept j is_open (paid env staff_id reference) (λ p. refl) db.payouts
            completed (subst (λ k. status_of k db.payouts ≡ some completed) this h) refl)
    kept (inr other) =
        status_of-updated_ne j is_open (paid env staff_id reference) (λ p. refl) i db.payouts
          (ground arith)
        ∙ h

create_payout-StaysPaid :
    (env : PayEnv) (i org_id staff_id : ℕ) (default : Float64) (min_amount : ℕ) (db : PayDb)
    → IsSound db
    → status_of i db.payouts ≡ some completed
    → StaysPaid i db (create_payout env org_id staff_id default min_amount db).1
create_payout-StaysPaid env i org_id staff_id default min_amount db v h =
    elim (PayResult-cases (create_payout env org_id staff_id default min_amount db)) [
      | inl (p, made) ↦
          let c = create_payout-Created env org_id staff_id default min_amount db _ p made in
          let fresh = status_of-below db.next_payout db.payouts v.below in
          let ne : i ≢ db.next_payout = λ e.
            absurd (ground (arith, subst (λ k. status_of k db.payouts ≡ some completed) e h)) in
          subst (StaysPaid i db) (sym c.after) (record {
            status = status_of-append_old i db.payouts p completed h;
            payments = new_claim-claimed_by db.zones org_id db.next_payout i db.payments ne;
          })
      | inr (e, refused) ↦
          subst (StaysPaid i db)
            (sym (create_payout_rolls_back env org_id staff_id default min_amount db _ e refused))
            (record { status = h; payments = refl })
    ]

pub perform-StaysPaid :
    (env : PayEnv) (c : Call) (i : ℕ) (db : PayDb)
    → IsSound db
    → status_of i db.payouts ≡ some completed
    → StaysPaid i db (perform env c db)
unfolding perform cancel fail_payout
perform-StaysPaid env (create org_id staff_id default min_amount) i db v h =
    create_payout-StaysPaid env i org_id staff_id default min_amount db v h
perform-StaysPaid env (give_up id) i db v h =
    release_if-StaysPaid env i id is_pending (λ p. record p { status = cancelled }) db (λ p. refl)
      refl v h
perform-StaysPaid env (report_failure id reason) i db v h =
    release_if-StaysPaid env i id is_processing
      (λ p. record p { status = failed; failure_reason = truncate reason 500 }) db (λ p. refl) refl
      v h
perform-StaysPaid env (confirm id staff_id reference) i db v h =
    mark_paid-StaysPaid env i id staff_id reference db h
