-- ===== src/Mpesa/Stk/Closing.antt =====
-- No push waits for ever (services/money_jobs.go, `ReconcilePendingSTK`).
use zyranet_api.Base.{
  ℕ, suc, ◌-◌, ◌*◌, ◌≡◌, refl, ap, true, false, ◌&&◌, ◌||◌, Option, none, some, List, [], ◌∷◌, ◌++◌,
  ◌==◌, ltb, leb, arith, Bool-cases, inl, inr, ◌⊎◌, count_where, update_where, select, first_rows,
}
use zyranet_api.Text.{Text, bytes, text_eq}
use zyranet_api.Json.{AmountOps, Fields, field_of, string_in}
use zyranet_api.Router.Health.{second}
use zyranet_api.Mpesa.Stk.Rows.{
  StkPayment, StkState, StkEnv, StkStatus, pending, completed, failed, Handled, handled, broke,
  complete_payment, fail_payment, find_pending,
}
use zyranet_api.Mpesa.Stk.Success.{process_payment_failure, may_fail}
use zyranet_api.Mpesa.Stk.Query.{
  Daraja, is_pending_status, query_and_update_stk_status, ask_about, apply_reply, settle_query,
  told_completed, is_unresolved, age, is_throttled, is_null, note_asked, reconcile_one,
  close_if_old, reconcile_each, reconcile_pending_stk, is_due, stk_reconcile_until,
}
use zyranet_api.Mpesa.Stk.Evolves.{Kept, RowKept}
use zyranet_api.Mpesa.Stk.Once.{IsSettled, success-IsSettled}
use zyranet_api.Mpesa.Stk.Entries.{reconcile_each-Evolves}

-- No payment with this id waits.
abbrev pub NoneWaits : ℕ → List StkPayment → Type 0
NoneWaits id ps = count_where (λ p. p.id == id && is_pending_status p.status) ps ≡ 0

settled-NoneWaits : (id : ℕ) (ps : List StkPayment) → IsSettled id ps → NoneWaits id ps
settled-NoneWaits id [] h = refl
settled-NoneWaits id (p ∷ ps) h = ground (arith, settled-NoneWaits id ps)

failed-NoneWaits :
    (env : StkEnv) (id : ℕ) (reason : Text) (ps : List StkPayment)
    → NoneWaits id (
        update_where
          (may_fail env id)
          (λ p. record p { status = failed; status_reason = reason })
          ps)
failed-NoneWaits env id reason [] = refl
failed-NoneWaits env id reason (p ∷ ps) = ground (arith, failed-NoneWaits env id reason ps)

kept_row :
    (id : ℕ) (p q : StkPayment)
    → RowKept p q
    → (p.id == id && is_pending_status p.status) ≡ false
    → (q.id == id && is_pending_status q.status) ≡ false
kept_row id p q (i, inl (same, r)) h =
    let e : q.status ≡ p.status = ap (λ t. t.status) same in ground arith
kept_row id p q (i, inr (open_yet, r)) h = ground arith

Kept-NoneWaits : (id : ℕ) (ps qs : List StkPayment) → Kept ps qs → NoneWaits id ps → NoneWaits id qs
Kept-NoneWaits id [] [] h e = refl
Kept-NoneWaits id (p ∷ ps) (q ∷ qs) h e =
    elim (Bool-cases (p.id == id && is_pending_status p.status)) [
      | inl waits ↦ absurd (ground arith)
      | inr over ↦ ground (arith, kept_row id p q h.0 over, Kept-NoneWaits id ps qs h.1)
    ]
Kept-NoneWaits id [] (q ∷ qs) h e = absurd h
Kept-NoneWaits id (p ∷ ps) [] h e = absurd h

-- The caller is told that the payment waits, or no payment with this id does.
abbrev Decides : ℕ → StkStatus × Handled × StkState → Type 0
Decides id r = (r.0 ≡ pending) ⊎ NoneWaits id r.2.payments

module _ {F : Type 0} (ops : AmountOps F) (env : StkEnv) (daraja : Daraja F) (payment : StkPayment)
    (completes : env.fails complete_payment ≡ false) (closes : env.fails fail_payment ≡ false) where
  open ops use {floats}

  failure-NoneWaits :
      (reason : Text) (s : StkState)
      → NoneWaits payment.id (process_payment_failure env payment reason s).payments
  unfolding process_payment_failure
  failure-NoneWaits reason s = rw closes (failed-NoneWaits env payment.id reason s.payments)

  told-Decides :
      (r : Handled × StkState)
      → IsSettled payment.id r.1.payments
      → Decides payment.id (told_completed ops env daraja r)
  told-Decides (handled, s) h = inr (settled-NoneWaits payment.id s.payments h)
  told-Decides (broke, s) h = inl refl

  settle_query-Decides :
      (checkout_id : Text) (reply : Fields F) (rc : F) (desc : Text) (s : StkState)
      → Decides payment.id (settle_query ops env daraja payment checkout_id reply rc desc s)
  settle_query-Decides checkout_id reply rc desc s = elim (Bool-cases (floats.is_zero rc)) [
    | inl succeeded ↦
        rw succeeded (told-Decides _ (success-IsSettled env payment _ payment.phone s completes))
    | inr not_so ↦ rw not_so (elim (Bool-cases (is_unresolved ops env daraja rc desc)) [
      | inl unresolved ↦
          rw unresolved (elim (Bool-cases (ltb (age ops env daraja payment) (150 * second))) [
            | inl young ↦ rw young (inl refl)
            | inr old ↦ rw old (inr (failure-NoneWaits _ s))
          ])
      | inr resolved ↦ rw resolved (inr (failure-NoneWaits _ s))
    ])
  ]

  reply-Decides :
      (checkout_id : Text) (reply : Option (Fields F)) (s : StkState)
      → Decides payment.id (apply_reply ops env daraja payment checkout_id reply s)
  reply-Decides checkout_id none s = inl refl
  reply-Decides checkout_id (some reply) s =
      let code = string_in (field_of (bytes "errorCode") reply) in
      elim (Bool-cases (text_eq code (bytes "500.001.1001") || text_eq code (bytes "404.002.02"))) [
        | inl busy ↦ rw busy (inl refl)
        | inr decided ↦
            rw decided
              (elim (Bool-cases
                (text_eq (string_in (field_of (bytes "ResponseCode") reply)) (bytes "0"))) [
                  | inr refused ↦ rw refused (inl refl)
                  | inl accepted ↦
                      rw accepted
                        (elim (Bool-cases (is_null (field_of (bytes "ResultCode") reply))) [
                          | inl open_yet ↦ rw open_yet (inl refl)
                          | inr known ↦ rw known (settle_query-Decides checkout_id reply _ _ s)
                        ])
                ])
      ]

  about-Decides :
      (push : Option Text) (s : StkState)
      → payment.status ≡ pending
      → Decides payment.id (ask_about ops env daraja push payment s)
  about-Decides none s waits = inl refl
  about-Decides (some checkout_id) s waits = elim (Bool-cases (text_eq checkout_id [])) [
    | inl empty ↦ rw empty (inl refl)
    | inr named ↦ rw named (elim (Bool-cases (ltb (age ops env daraja payment) (3 * second))) [
      | inl young ↦ rw young (inl refl)
      | inr waited ↦ rw waited (elim (Bool-cases (is_throttled ops env daraja checkout_id s)) [
        | inl recent ↦ rw recent (inl waits)
        | inr free ↦ rw free (reply-Decides checkout_id _ (note_asked ops env daraja checkout_id s))
      ])
    ])
  ]

  closed-NoneWaits :
      (started : ℕ) (r : StkStatus × Handled × StkState)
      → leb stk_reconcile_until (started - payment.created_at) ≡ true
      → Decides payment.id r
      → NoneWaits payment.id (close_if_old ops env daraja started payment r).payments
  closed-NoneWaits started (pending, h, s) old d = rw old (failure-NoneWaits _ s)
  closed-NoneWaits started (completed, h, s) old (inl e) = absurd (cc)
  closed-NoneWaits started (completed, h, s) old (inr d) = d
  closed-NoneWaits started (failed, h, s) old (inl e) = absurd (cc)
  closed-NoneWaits started (failed, h, s) old (inr d) = d

  reconcile_one-NoneWaits :
      (started : ℕ) (s : StkState)
      → payment.status ≡ pending
      → leb stk_reconcile_until (started - payment.created_at) ≡ true
      → NoneWaits payment.id (reconcile_one ops env daraja started payment s).payments
  unfolding reconcile_one query_and_update_stk_status
  reconcile_one-NoneWaits started s waits old =
      closed-NoneWaits started (ask_about ops env daraja payment.transaction_id payment s) old
        (about-Decides payment.transaction_id s waits)

module _ {F : Type 0} (ops : AmountOps F) (calls : ℕ → StkEnv × Daraja F) where
  reconcile_each-NoneWaits :
      (i started : ℕ) (before after : List StkPayment) (p : StkPayment) (s : StkState)
      → ((j : ℕ) → (calls j).0.fails complete_payment ≡ false)
      → ((j : ℕ) → (calls j).0.fails fail_payment ≡ false)
      → p.status ≡ pending
      → leb stk_reconcile_until (started - p.created_at) ≡ true
      → NoneWaits p.id (reconcile_each ops calls i started (before ++ p ∷ after) s).payments
  unfolding reconcile_each
  reconcile_each-NoneWaits i started [] after p s completes closes waits old =
      let first = reconcile_one ops (calls i).0 (calls i).1 started p s in
      Kept-NoneWaits p.id first.payments _
        (reconcile_each-Evolves ops calls (suc i) started after first).kept
        (reconcile_one-NoneWaits ops (calls i).0 (calls i).1 p (completes i) (closes i) started s
          waits old)
  reconcile_each-NoneWaits i started (b ∷ before) after p s completes closes waits old =
      reconcile_each-NoneWaits (suc i) started before after p _ completes closes waits old

-- A push among those that a run of the job looks at, still waiting half an hour or more after it was
-- started, no longer waits when the run is over, whatever Safaricom answers about this push and the
-- others (where the run can load the pushes, and the updates that complete or fail a payment go through).
pub reconcile_closes :
    {F : Type 0} (ops : AmountOps F) (env : StkEnv) (calls : ℕ → StkEnv × Daraja F)
    (before after : List StkPayment) (p : StkPayment) (s : StkState)
    → first_rows 100 (select (is_due ops env.now) s.payments) ≡ before ++ p ∷ after
    → env.fails find_pending ≡ false
    → ((j : ℕ) → (calls j).0.fails complete_payment ≡ false)
    → ((j : ℕ) → (calls j).0.fails fail_payment ≡ false)
    → p.status ≡ pending
    → leb stk_reconcile_until (env.now - p.created_at) ≡ true
    → NoneWaits p.id (reconcile_pending_stk ops env calls s).payments
unfolding reconcile_pending_stk
reconcile_closes ops env calls before after p s loaded finds completes closes waits old =
    rw (finds, loaded)
      (reconcile_each-NoneWaits ops calls 0 env.now before after p s completes closes waits old)
