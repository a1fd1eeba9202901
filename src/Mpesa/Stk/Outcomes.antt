-- ===== src/Mpesa/Stk/Outcomes.antt =====
-- What a success, an underpayment and a failure may change (services/mpesa.go:
-- `ProcessPaymentSuccess`, `ProcessUnderpayment`, `ProcessPaymentFailure`, `HandleCallback`,
-- `QueryAndUpdateSTKStatus`; services/money_jobs.go: `ReconcilePendingSTK`).
use zyranet_api.Base.{
  ℕ, ◌≡◌, refl, Bool, true, false, ◌||◌, Option, none, some, List, [], ◌∷◌, ◌==◌, arith, Bool-cases,
  inl, inr, count_where, update_where,
}
use zyranet_api.Int.{ℤ, pos, leb_ℤ, ◌+ℤ◌, int_laws}
use zyranet_api.Text.{Text, text_eq}
use zyranet_api.Text.Cut.{has_prefix}
use zyranet_api.Models.{Package, Customer}
use zyranet_api.Json.{AmountOps}
use zyranet_api.Mpesa.Stk.Rows.{
  StkPayment, StkState, StkEnv, complete_payment, upgrade_receipt, fail_payment, underpay_payment,
  adjust_credit as adjust_stmt, log_credit, update_payments, CreditLog, failed,
}
use zyranet_api.Mpesa.Stk.Payer.{adjust_credit, has_customer_id, credit_by, payer_for}
use zyranet_api.Mpesa.Stk.Success.{
  is_completed, top_up_customer, grant_found, deliver_package, credit_customer, committed_or,
  upgrade_placeholder_receipt, top_up, deliver, process_payment_success, process_payment_failure,
  process_underpayment, keep_as_credit, is_unfinished, is_upgradable, completed_row, may_fail,
  placeholder, top_up_note, via_of, underpaid_note, package_name,
}
use zyranet_api.Mpesa.Stk.Evolves.{
  Evolves, Evolves-refl, Evolves-trans, Evolves-unlogged, Kept-refl, Kept-update_where, Moved,
  Moved-refl, RowKept,
}
use zyranet_api.Mpesa.Stk.Steps.{grant-Evolves, link_payer-Evolves}

abbrev log_line : ℕ → ℤ → Text → CreditLog
log_line id amount note = record { customer_id = id; amount = amount; note = note }

zero_right : (x a : ℤ) → x +ℤ (a +ℤ pos 0) ≡ x +ℤ a
zero_right x a = omega int_laws

same_right : (x : ℤ) → x ≡ x +ℤ (pos 0 +ℤ pos 0)
same_right x = omega int_laws

credited-Moved :
    (id : ℕ) (amount : ℤ) (note : Text) (cs : List Customer)
    → Moved
        (log_line id amount note ∷ [])
        cs
        (update_where (has_customer_id id) (credit_by amount) cs)
credited-Moved id amount note [] = tt
credited-Moved id amount note (c ∷ cs) = elim (Bool-cases (c.id == id)) [
  | inl hit ↦ (
    rw hit refl,
    ground (arith, zero_right c.credit_balance amount),
    credited-Moved id amount note cs,
  )
  | inr miss ↦
      (rw miss refl, ground (arith, same_right c.credit_balance), credited-Moved id amount note cs)
]

-- An adjustment that adds moves exactly the balance that the log names.
adjusted-Moved :
    (id : ℕ) (amount : ℤ) (note : Text) (cs : List Customer)
    → leb_ℤ (pos 0) amount ≡ true
    → Moved (log_line id amount note ∷ []) cs (adjust_credit id amount cs).1
unfolding adjust_credit
adjusted-Moved id amount note cs h = rw h (credited-Moved id amount note cs)

module _ (env : StkEnv) where
  -- A credit, or a rollback to `s`.
  credited-Evolves :
      (id : ℕ) (amount : ℤ) (note : Text) (s t : StkState)
      → Evolves s t
      → Evolves s (committed_or (credit_customer env id amount note t) s).1
  credited-Evolves id amount note s t before = elim (Bool-cases (env.fails adjust_stmt)) [
    | inl failing ↦ rw failing (Evolves-refl s)
    | inr adjusts ↦ rw adjusts (elim (Bool-cases (env.fails log_credit)) [
      | inl failing ↦ rw failing (Evolves-refl s)
      | inr logs ↦ rw logs (
          Evolves-trans before (record {
            kept = Kept-refl t.payments;
            logged = log_line id amount note ∷ [];
            logs = refl;
            balances = λ h. adjusted-Moved id amount note t.base.customers h.0;
          }))
    ])
  ]

  -- An update of payments alone.
  payments-Evolves :
      (test : StkPayment → Bool) (f : StkPayment → StkPayment) (s : StkState)
      → ((p : StkPayment) → test p ≡ true → RowKept p (f p))
      → Evolves s (update_payments test f s)
  payments-Evolves test f s each =
      Evolves-unlogged (Kept-update_where test f each s.payments) refl (Moved-refl s.base.customers)

  upgrade-Evolves :
      (id : ℕ) (receipt : Text) (s : StkState)
      → Evolves s (upgrade_placeholder_receipt env id receipt s)
  unfolding upgrade_placeholder_receipt
  upgrade-Evolves id receipt s =
      elim (Bool-cases
        (text_eq receipt [] || has_prefix receipt placeholder || env.fails upgrade_receipt)) [
          | inl kept ↦ rw kept (Evolves-refl s)
          | inr upgrades ↦ rw upgrades (
              payments-Evolves (is_upgradable id) (λ p. record p { receipt = receipt }) s
                (λ p hit. (refl, inl (refl, inr (ground arith)))))
        ]

  unfinished : (id : ℕ) (p : StkPayment) → is_unfinished id p ≡ true → is_completed p.status ≡ false
  unfinished id p h = ground arith

  top_up-Evolves :
      (payment : StkPayment) (receipt : Text) (payer : Option Customer) (s : StkState)
      → Evolves s (top_up_customer env payment receipt payer s).1
  top_up-Evolves payment receipt none s = Evolves-refl s
  top_up-Evolves payment receipt (some c) s =
      credited-Evolves c.id payment.amount (top_up_note receipt) s s (Evolves-refl s)

  grant_found-Evolves :
      (payment : StkPayment) (phone : Text) (found : Option Package) (s : StkState)
      → Evolves s (grant_found env payment phone found s)
  grant_found-Evolves payment phone none s = Evolves-refl s
  grant_found-Evolves payment phone (some pkg) s = grant-Evolves env payment pkg phone s

  pub deliver-Evolves :
      (package_id : Option ℕ) (payment : StkPayment) (receipt phone : Text) (s : StkState)
      → Evolves s (deliver_package env package_id payment receipt phone s).1
  unfolding top_up
  deliver-Evolves none payment receipt phone s = top_up-Evolves payment receipt _ s
  deliver-Evolves (some id) payment receipt phone s = grant_found-Evolves payment phone _ s

  pub success-Evolves :
      (payment : StkPayment) (receipt phone : Text) (s : StkState)
      → Evolves s (process_payment_success env payment receipt phone s).1
  unfolding process_payment_success deliver
  success-Evolves payment receipt phone s =
      elim (Bool-cases
        (env.fails complete_payment || count_where (is_unfinished payment.id) s.payments == 0)) [
          | inl late ↦ rw late (upgrade-Evolves payment.id receipt s)
          | inr first ↦ rw first (
              Evolves-trans
                (payments-Evolves (is_unfinished payment.id)
                  (completed_row receipt (via_of env payment receipt)) s
                  (λ p hit. (refl, inr (unfinished payment.id p hit, refl))))
                (deliver-Evolves payment.package_id payment receipt phone _))
        ]

  pub failure-Evolves :
      (payment : StkPayment) (reason : Text) (s : StkState)
      → Evolves s (process_payment_failure env payment reason s)
  unfolding process_payment_failure
  failure-Evolves payment reason s = elim (Bool-cases (env.fails fail_payment)) [
    | inl failing ↦ rw failing (Evolves-refl s)
    | inr works ↦ rw works (
        payments-Evolves (may_fail env payment.id)
          (λ p. record p { status = failed; status_reason = reason }) s
          (λ p hit. (refl, inr (ground arith, refl))))
  ]

  module _ {F : Type 0} (ops : AmountOps F) where
    kept_as_credit-Evolves :
        (paid : F) (payment : StkPayment) (name receipt : Text) (payer : Option Customer)
        (s t : StkState)
        → Evolves s t
        → Evolves s (committed_or (keep_as_credit env ops paid payment name receipt payer t) s).1
    kept_as_credit-Evolves paid payment name receipt none s t before = before
    kept_as_credit-Evolves paid payment name receipt (some c) s t before =
        credited-Evolves c.id (ops.hundredths paid)
          (underpaid_note env ops paid payment name receipt) s _
          (Evolves-trans before (link_payer-Evolves env payment.id c.id t))

    pub underpayment-Evolves :
        (payment : StkPayment) (paid : F) (receipt phone : Text) (s : StkState)
        → Evolves s (process_underpayment env ops payment paid receipt phone s).1
    unfolding process_underpayment
    underpayment-Evolves payment paid receipt phone s =
        elim (Bool-cases (env.fails underpay_payment)) [
          | inl failing ↦ rw failing (Evolves-refl s)
          | inr works ↦
              rw works (elim (Bool-cases (count_where (is_unfinished payment.id) s.payments == 0)) [
                | inl late ↦ rw late (Evolves-refl s)
                | inr first ↦ rw first (
                    kept_as_credit-Evolves paid payment (package_name env payment s) receipt
                      (payer_for env payment phone s) s _
                      (payments-Evolves (is_unfinished payment.id) _ s
                        (λ p hit. (refl, inr (unfinished payment.id p hit, refl)))))
              ])
        ]
