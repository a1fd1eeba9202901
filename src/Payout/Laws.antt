-- ===== src/Payout/Laws.antt =====
-- Every operation keeps the invariant of payouts (services/payout.go).
use zyranet_api.Base.{
  ℕ, ◌≡◌, ◌≢◌, refl, sym, Bool, true, ◌&&◌, Option, none, some, List, [], ◌∷◌, arith, ◌==◌,
  if◌then◌else◌, update_where, All, Option-cases, inl, inr, subst, ◌⊎◌,
}
use zyranet_api.Text.{Text, trim_space}
use zyranet_api.Payout.Rows.{Status, completed, failed, cancelled, Payout, Payment, PayDb}
use zyranet_api.Payout.States.{
  PayEnv, is_claimed_by, is_open, is_pending, is_processing, transition, release_if, cancel,
  fail_payout, mark_paid, truncate, manual_if_unset,
}
use zyranet_api.Payout.Invariant.{
  status_of, is_live, is_backed, IsSound, updated, updated-UniqueIds, updated-below,
  status_of-updated_ne, is_live-updated,
}

pub backed_mono :
    (xs xs' : List Payout) (ps : List Payment)
    → ((j : ℕ) → is_live (status_of j xs) ≡ true → is_live (status_of j xs') ≡ true)
    → All (λ p. is_backed xs p.payout_id ≡ true) ps
    → All (λ p. is_backed xs' p.payout_id ≡ true) ps
backed_mono xs xs' [] f h = tt
backed_mono xs xs' (p ∷ ps) f h = (one p.payout_id h.0, backed_mono xs xs' ps f h.1)
  where
    one : (o : Option ℕ) → is_backed xs o ≡ true → is_backed xs' o ≡ true
    one none e = refl
    one (some j) e = f j e

-- An update that gives live statuses keeps the invariant.
pub updated-IsSound :
    (i : ℕ) (from : Status → Bool) (u : Payout → Payout) (db : PayDb)
    → ((p : Payout) → (u p).id ≡ p.id)
    → ((p : Payout) → is_live (some (u p).status) ≡ true)
    → IsSound db
    → IsSound (record db { payouts = update_where (λ p. p.id == i && from p.status) u db.payouts })
updated-IsSound i from u db keep live v = record {
  unique = updated-UniqueIds i from u keep db.payouts v.unique;
  below = updated-below i from u keep db.next_payout db.payouts v.below;
  backed =
      backed_mono db.payouts (updated i from u keep db.payouts) db.payments
        (λ j. is_live-updated i from u keep live j db.payouts) v.backed;
}

abbrev pub released : ℕ → List Payment → List Payment
released i = update_where (is_claimed_by i) (λ p. record p { payout_id = none })

released_one :
    (i : ℕ) (xs xs' : List Payout) (p : Payment)
    → ((j : ℕ) → j ≢ i → status_of j xs' ≡ status_of j xs)
    → is_backed xs p.payout_id ≡ true
    → is_backed xs' (if is_claimed_by i p then record p { payout_id = none } else p).payout_id
      ≡ true
released_one i xs xs' p f h = elim (Option-cases p.payout_id) [
  | inl free ↦ ground arith
  | inr (j, claimed) ↦ ground (arith, f j)
]

released-backed :
    (i : ℕ) (xs xs' : List Payout) (ps : List Payment)
    → ((j : ℕ) → j ≢ i → status_of j xs' ≡ status_of j xs)
    → All (λ p. is_backed xs p.payout_id ≡ true) ps
    → All (λ p. is_backed xs' p.payout_id ≡ true) (released i ps)
released-backed i xs xs' [] f h = tt
released-backed i xs xs' (p ∷ ps) f h =
    (released_one i xs xs' p f h.0, released-backed i xs xs' ps f h.1)

-- An update that gives up a payout keeps the invariant with the release of its payments.
pub given_up-IsSound :
    (i : ℕ) (from : Status → Bool) (u : Payout → Payout) (db : PayDb)
    → ((p : Payout) → (u p).id ≡ p.id)
    → IsSound db
    → IsSound (record db {
      payouts = update_where (λ p. p.id == i && from p.status) u db.payouts;
      payments = released i db.payments;
    })
given_up-IsSound i from u db keep v = record {
  unique = updated-UniqueIds i from u keep db.payouts v.unique;
  below = updated-below i from u keep db.next_payout db.payouts v.below;
  backed =
      released-backed i db.payouts (updated i from u keep db.payouts) db.payments
        (λ j. status_of-updated_ne i from u keep j db.payouts) v.backed;
}

pub release_if-cases :
    (env : PayEnv) (i : ℕ) (from : Status → Bool) (u : Payout → Payout) (db : PayDb)
    → ((release_if env i (transition env i from u db) db).1 ≡ db)
      ⊎ ((release_if env i (transition env i from u db) db).1 ≡ record db {
        payouts = update_where (λ p. p.id == i && from p.status) u db.payouts;
        payments = released i db.payments;
      })
release_if-cases env i from u db = ground arith

-- A release after a transition: an error rolls both back.
release_if-IsSound :
    (env : PayEnv) (i : ℕ) (from : Status → Bool) (u : Payout → Payout) (db : PayDb)
    → ((p : Payout) → (u p).id ≡ p.id)
    → IsSound db
    → IsSound (release_if env i (transition env i from u db) db).1
release_if-IsSound env i from u db keep v =
    let given_up = given_up-IsSound i from u db keep v in
    elim (release_if-cases env i from u db) [
      | inl same ↦ subst IsSound (sym same) v
      | inr changed ↦ subst IsSound (sym changed) given_up
    ]

-- A cancelled payout gives its payments back.
pub cancel-IsSound : (env : PayEnv) (i : ℕ) (db : PayDb) → IsSound db → IsSound (cancel env i db).1
unfolding cancel
cancel-IsSound env i db v =
    release_if-IsSound env i is_pending (λ p. record p { status = cancelled }) db (λ p. refl) v

pub fail_payout-IsSound :
    (env : PayEnv) (i : ℕ) (reason : Text) (db : PayDb)
    → IsSound db
    → IsSound (fail_payout env i reason db).1
unfolding fail_payout
fail_payout-IsSound env i reason db v =
    release_if-IsSound env i is_processing
      (λ p. record p { status = failed; failure_reason = truncate reason 500 }) db (λ p. refl) v

abbrev pub paid : PayEnv → ℕ → Text → Payout → Payout
paid env staff_id reference p = record p {
  status = completed;
  reference = truncate (trim_space reference) 100;
  completed_at = some env.now;
  sent_by = some staff_id;
  method = manual_if_unset env p.method;
}

pub mark_paid-cases :
    (env : PayEnv) (i staff_id : ℕ) (reference : Text) (db : PayDb)
    → ((mark_paid env i staff_id reference db).1 ≡ db)
      ⊎ ((mark_paid env i staff_id reference db).1 ≡ record db {
        payouts =
            update_where
              (λ p. p.id == i && is_open p.status)
              (paid env staff_id reference)
              db.payouts;
      })
unfolding mark_paid
mark_paid-cases env i staff_id reference db = ground arith

pub mark_paid-IsSound :
    (env : PayEnv) (i staff_id : ℕ) (reference : Text) (db : PayDb)
    → IsSound db
    → IsSound (mark_paid env i staff_id reference db).1
mark_paid-IsSound env i staff_id reference db v =
    let completes =
      updated-IsSound i is_open (paid env staff_id reference) db (λ p. refl) (λ p. refl) v in
    elim (mark_paid-cases env i staff_id reference db) [
      | inl same ↦ subst IsSound (sym same) v
      | inr changed ↦ subst IsSound (sym changed) completes
    ]
