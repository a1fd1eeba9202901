-- ===== src/Mpesa/Stk/Once.antt =====
-- What has been paid is delivered once (services/mpesa.go: `ProcessPaymentSuccess`,
-- `ProcessUnderpayment`, `ProcessPaymentFailure`).
use zyranet_api.Base.{
  ℕ, ◌≡◌, refl, ap, subst, false, List, [], ◌∷◌, ◌==◌, arith, Bool-cases, inl, inr, count_where,
  update_where, update_where_none, sym, ==→eq,
}
use zyranet_api.Text.{Text}
use zyranet_api.Json.{AmountOps}
use zyranet_api.Mpesa.Stk.Rows.{
  StkPayment, StkState, StkEnv, completed, failed, complete_payment, fail_payment, underpay_payment,
  handled, update_payments,
}
use zyranet_api.Mpesa.Stk.Success.{
  process_payment_success, process_payment_failure, process_underpayment,
  upgrade_placeholder_receipt, is_unfinished, may_fail, completed_row, via_of, deliver,
}
use zyranet_api.Mpesa.Stk.Evolves.{Kept, RowKept}
use zyranet_api.Mpesa.Stk.Outcomes.{deliver-Evolves, success-Evolves}
use zyranet_api.Mpesa.Stk.Query.{Daraja}
use zyranet_api.Mpesa.Stk.Runs.{StkCall, serve_all, serve_all-Kept}

-- No payment with this id is short of completed.
abbrev pub IsSettled : ℕ → List StkPayment → Type 0
IsSettled id ps = count_where (is_unfinished id) ps ≡ 0

row_settled :
    (id : ℕ) (p q : StkPayment)
    → RowKept p q
    → is_unfinished id p ≡ false
    → is_unfinished id q ≡ false
row_settled id p q (i, inl (same, r)) h =
    let e : q.status ≡ p.status = ap (λ t. t.status) same in ground (arith)
row_settled id p q (i, inr (unfinished, r)) h = ground arith

Kept-IsSettled : (id : ℕ) (ps qs : List StkPayment) → Kept ps qs → IsSettled id ps → IsSettled id qs
Kept-IsSettled id [] [] h e = refl
Kept-IsSettled id (p ∷ ps) (q ∷ qs) h e = elim (Bool-cases (is_unfinished id p)) [
  | inl open_yet ↦ absurd (ground arith)
  | inr done ↦ ground (arith, row_settled id p q h.0 done, Kept-IsSettled id ps qs h.1)
]
Kept-IsSettled id [] (q ∷ qs) h e = absurd h
Kept-IsSettled id (p ∷ ps) [] h e = absurd h

completed-IsSettled :
    (id : ℕ) (f : StkPayment → StkPayment) (ps : List StkPayment)
    → ((p : StkPayment) → (f p).status ≡ completed)
    → IsSettled id (update_where (is_unfinished id) f ps)
completed-IsSettled id f [] h = refl
completed-IsSettled id f (p ∷ ps) h = ground (arith, h p, completed-IsSettled id f ps h)

closed_to_failure :
    (env : StkEnv) (id : ℕ) (p : StkPayment)
    → is_unfinished id p ≡ false
    → may_fail env id p ≡ false
closed_to_failure env id p h = ground arith

none_may_fail :
    (env : StkEnv) (id : ℕ) (ps : List StkPayment)
    → IsSettled id ps
    → count_where (may_fail env id) ps ≡ 0
none_may_fail env id [] h = refl
none_may_fail env id (p ∷ ps) h = elim (Bool-cases (is_unfinished id p)) [
  | inl open_yet ↦ absurd (ground arith)
  | inr done ↦ ground (arith, closed_to_failure env id p done, none_may_fail env id ps)
]

module _ (env : StkEnv) where
  pub success-IsSettled :
      (payment : StkPayment) (receipt phone : Text) (s : StkState)
      → env.fails complete_payment ≡ false
      → IsSettled payment.id (process_payment_success env payment receipt phone s).1.payments
  unfolding process_payment_success deliver
  success-IsSettled payment receipt phone s works =
      let row = completed_row receipt (via_of env payment receipt) in
      let marked = update_payments (is_unfinished payment.id) row s in
      elim (Bool-cases (count_where (is_unfinished payment.id) s.payments == 0)) [
        | inl late ↦
            Kept-IsSettled payment.id s.payments _
              (success-Evolves env payment receipt phone s).kept (==→eq _ 0 late)
        | inr first ↦
            rw (works, first)
              (Kept-IsSettled payment.id marked.payments _
                (deliver-Evolves env payment.package_id payment receipt phone marked).kept
                (completed-IsSettled payment.id row s.payments (λ p. refl)))
      ]

  pub settled_success :
      (payment : StkPayment) (receipt phone : Text) (s : StkState)
      → IsSettled payment.id s.payments
      → process_payment_success env payment receipt phone s
        ≡ (handled, upgrade_placeholder_receipt env payment.id receipt s)
  unfolding process_payment_success
  settled_success payment receipt phone s settled = elim (Bool-cases (env.fails complete_payment)) [
    | inl failing ↦ rw failing refl
    | inr works ↦ rw (works, settled) refl
  ]

  settled_failure :
      (payment : StkPayment) (reason : Text) (s : StkState)
      → IsSettled payment.id s.payments
      → process_payment_failure env payment reason s ≡ s
  unfolding process_payment_failure
  settled_failure payment reason s settled = elim (Bool-cases (env.fails fail_payment)) [
    | inl failing ↦ rw failing refl
    | inr works ↦ rw works (
        ap (λ ps. record s { payments = ps })
          (update_where_none (may_fail env payment.id)
            (λ p. record p { status = failed; status_reason = reason }) s.payments
            (none_may_fail env payment.id s.payments settled)))
  ]

  settled_underpayment :
      {F : Type 0} (ops : AmountOps F) (payment : StkPayment) (paid : F) (receipt phone : Text)
      (s : StkState)
      → IsSettled payment.id s.payments
      → (process_underpayment env ops payment paid receipt phone s).1 ≡ s
  unfolding process_underpayment
  settled_underpayment ops payment paid receipt phone s settled =
      elim (Bool-cases (env.fails underpay_payment)) [
        | inl failing ↦ rw failing refl
        | inr works ↦ rw (works, settled) refl
      ]

-- Once a success of a payment has been carried out, its update having gone through, and whatever calls
-- came since: another success of that payment, from any copy of its row, does no more than put a
-- receipt in the place of a placeholder, and an underpayment or a failure of it changes nothing. So what
-- was paid is delivered once.
pub delivered_once :
    {F : Type 0} (ops : AmountOps F) (env env' : StkEnv) (payment copy : StkPayment)
    (receipt receipt' phone phone' reason : Text) (paid : F)
    (calls : List (StkEnv × Daraja F × StkCall F)) (s : StkState)
    → env.fails complete_payment ≡ false
    → copy.id ≡ payment.id
    → let before = serve_all ops calls (process_payment_success env payment receipt phone s).1 in
      (process_payment_success env' copy receipt' phone' before
        ≡ (handled, upgrade_placeholder_receipt env' copy.id receipt' before))
      × ((process_underpayment env' ops copy paid receipt' phone' before).1 ≡ before)
      × (process_payment_failure env' copy reason before ≡ before)
delivered_once ops env env' payment copy receipt receipt' phone phone' reason paid calls s works
      same =
    let first = (process_payment_success env payment receipt phone s).1 in
    let before = serve_all ops calls first in
    let settled : IsSettled copy.id before.payments =
      subst (λ id. IsSettled id before.payments) (sym same)
        (Kept-IsSettled payment.id first.payments before.payments (serve_all-Kept ops calls first)
          (success-IsSettled env payment receipt phone s works)) in
    (
      settled_success env' copy receipt' phone' before settled,
      settled_underpayment env' ops copy paid receipt' phone' before settled,
      settled_failure env' copy reason before settled,
    )
