-- ===== src/Mpesa/Stk/Success.antt =====
-- A payment that went through, fell short or failed (services/mpesa.go: `ProcessPaymentSuccess`,
-- `upgradePlaceholderReceipt`, `ProcessUnderpayment`, `ProcessPaymentFailure`). The SMS are left out.
use zyranet_api.Base.{
  ℕ, suc, ◌+◌, Bool, true, false, not, ◌&&◌, ◌||◌, Option, none, some, [], ◌∷◌, ◌++◌, ◌/◌, ◌%◌,
  ◌==◌, if◌then◌else◌, find_first, count_where,
}
use zyranet_api.Int.{ℤ, pos, negsuc}
use zyranet_api.Text.{Text, bytes, text_eq, to_upper, decimal}
use zyranet_api.Text.Cut.{has_prefix}
use zyranet_api.Models.{Package, Customer}
use zyranet_api.Payout.B2b.Send.{dash}
use zyranet_api.Json.{AmountOps}
use zyranet_api.Mpesa.Routes.{Channel, collection_channel}
use zyranet_api.Mpesa.Stk.Rows.{
  StkStatus, pending, completed, failed, StkPayment, StkState, StkEnv, Handled, handled, broke,
  with_customers, update_payments, complete_payment, upgrade_receipt, fail_payment,
  underpay_payment, find_package, adjust_credit as adjust_stmt, log_credit,
}
use zyranet_api.Mpesa.Stk.Reasons.{processing_reason}
use zyranet_api.Mpesa.Stk.Payer.{adjust_credit, customer_by_id, payer_for}
use zyranet_api.Mpesa.Stk.Granting.{grant, link_payer}

abbrev pub is_completed : StkStatus → Bool
is_completed completed = true
is_completed pending = false
is_completed failed = false

abbrev pub placeholder : Text
placeholder = bytes "QRY_"

-- A placeholder that stands for a receipt, in the database's comparison, which ignores case.
abbrev pub has_placeholder : StkPayment → Bool
has_placeholder p = has_prefix (to_upper p.receipt) placeholder

abbrev pub is_unfinished : ℕ → StkPayment → Bool
is_unfinished id p = p.id == id && not (is_completed p.status)

abbrev pub is_upgradable : ℕ → StkPayment → Bool
is_upgradable id p = p.id == id && is_completed p.status && has_placeholder p

abbrev pub completed_row : Text → Channel → StkPayment → StkPayment
completed_row receipt via p = record p {
  status = completed;
  status_reason = [];
  receipt = receipt;
  collected_via = via;
}

-- An amount of hundredths with two decimal places.
abbrev pub two_digits : ℕ → Text
two_digits n = (48 + n / 10) ∷ (48 + n % 10) ∷ []

unfoldable pub fixed : ℤ → Text
fixed (pos n) = decimal (n / 100) ++ b'.' ∷ two_digits (n % 100)
fixed (negsuc n) = b'-' ∷ decimal (suc n / 100) ++ b'.' ∷ two_digits (suc n % 100)

-- The customer's balance and its log, in one transaction; `none` is a rollback.
abbrev pub credit_customer : StkEnv → ℕ → ℤ → Text → StkState → Option StkState
credit_customer env id amount note s =
    if env.fails adjust_stmt || env.fails log_credit
    then none
    else some (record (with_customers (λ cs. (adjust_credit id amount cs).1) s) {
      credit_logs = s.credit_logs ++ record { customer_id = id; amount = amount; note = note } ∷ [];
    })

abbrev pub committed_or : Option StkState → StkState → Handled × StkState
committed_or none s = (broke, s)
committed_or (some s') s = (handled, s')

abbrev pub top_up_note : Text → Text
top_up_note receipt = bytes "M-Pesa top-up (Receipt: " ++ receipt ++ bytes ")"

module _ (env : StkEnv) where
  unfoldable pub upgrade_placeholder_receipt : ℕ → Text → StkState → StkState
  upgrade_placeholder_receipt id receipt s =
      if text_eq receipt [] || has_prefix receipt placeholder || env.fails upgrade_receipt
      then s
      else update_payments (is_upgradable id) (λ p. record p { receipt = receipt }) s

  abbrev pub top_up_customer : StkPayment → Text → Option Customer → StkState → Handled × StkState
  top_up_customer payment receipt none s = (handled, s)
  top_up_customer payment receipt (some c) s =
      committed_or (credit_customer env c.id payment.amount (top_up_note receipt) s) s

  abbrev pub customer_at : Option ℕ → StkState → Option Customer
  customer_at none s = none
  customer_at (some id) s = customer_by_id env id s

  -- A payment for no package is credit.
  unfoldable pub top_up : StkPayment → Text → StkState → Handled × StkState
  top_up payment receipt s = top_up_customer payment receipt (customer_at payment.customer_id s) s

  abbrev pub package_by_id : ℕ → StkState → Option Package
  package_by_id id s =
      if env.fails find_package then none else find_first (λ p. p.id == id) s.base.packages

  abbrev pub grant_found : StkPayment → Text → Option Package → StkState → StkState
  grant_found payment phone none s = s
  grant_found payment phone (some pkg) s = grant env payment pkg phone s

  abbrev pub deliver_package : Option ℕ → StkPayment → Text → Text → StkState → Handled × StkState
  deliver_package none payment receipt phone s = top_up payment receipt s
  deliver_package (some id) payment receipt phone s =
      (handled, grant_found payment phone (package_by_id id s) s)

  unfoldable pub deliver : StkPayment → Text → Text → StkState → Handled × StkState
  deliver payment receipt phone s = deliver_package payment.package_id payment receipt phone s

  abbrev pub via_of : StkPayment → Text → Channel
  via_of payment receipt = collection_channel (env.creds payment.zone_id) receipt

  -- `payment` is the row as it was read. An update that fails looks like one that found nothing to do.
  unfoldable pub process_payment_success : StkPayment → Text → Text → StkState → Handled × StkState
  process_payment_success payment receipt phone s =
      if env.fails complete_payment || count_where (is_unfinished payment.id) s.payments == 0
      then (handled, upgrade_placeholder_receipt payment.id receipt s)
      else deliver payment receipt phone (
          update_payments (is_unfinished payment.id)
            (completed_row receipt (via_of payment receipt)) s)

  abbrev pub name_or_default : Option Package → Text
  name_or_default none = bytes "the package"
  name_or_default (some pkg) = if text_eq pkg.name [] then bytes "the package" else pkg.name

  abbrev pub package_name : StkPayment → StkState → Text
  package_name payment s =
      name_or_default (elim payment.package_id [ none ↦ none | some id ↦ package_by_id id s ])

  abbrev pub may_fail : ℕ → StkPayment → Bool
  may_fail id p = p.id == id && (elim p.status [
    | pending ↦ true
    | completed ↦ false
    | failed ↦ text_eq p.status_reason processing_reason
  ])

  unfoldable pub process_payment_failure : StkPayment → Text → StkState → StkState
  process_payment_failure payment reason s =
      if env.fails fail_payment
      then s
      else update_payments (may_fail payment.id)
          (λ p. record p { status = failed; status_reason = reason }) s

  module _ {F : Type 0} (ops : AmountOps F) where
    abbrev pub underpaid_row : F → Text → Text → Channel → StkPayment → StkPayment
    underpaid_row paid reason receipt via p = record p {
      status = completed;
      status_reason = reason;
      amount = ops.hundredths paid;
      package_id = none;
      receipt = receipt;
      collected_via = via;
    }

    abbrev pub underpaid_reason : F → StkPayment → Text → Bool → Text
    underpaid_reason paid payment pkg_name credited =
        bytes "Underpaid: KES "
        ++ ops.two_places paid
        ++ bytes " received for "
        ++ pkg_name
        ++ bytes " (KES "
        ++ fixed payment.amount
        ++ bytes "). Package not granted."
        ++ (if credited
            then bytes " Amount added to the customer's credit balance."
            else bytes " No customer account to credit " ++ dash ++ bytes " needs staff follow-up.")

    abbrev pub underpaid_note : F → StkPayment → Text → Text → Text
    underpaid_note paid payment pkg_name receipt =
        bytes "Underpaid M-Pesa payment "
        ++ receipt
        ++ bytes ": KES "
        ++ ops.two_places paid
        ++ bytes " of KES "
        ++ fixed payment.amount
        ++ bytes " for "
        ++ pkg_name
        ++ bytes " "
        ++ dash
        ++ bytes " kept as credit"

    -- What was paid is kept: on the balance of the customer, if there is one.
    abbrev pub keep_as_credit :
        F → StkPayment → Text → Text → Option Customer → StkState → Option StkState
    keep_as_credit paid payment pkg_name receipt none s = some s
    keep_as_credit paid payment pkg_name receipt (some c) s =
        credit_customer env c.id (ops.hundredths paid)
          (underpaid_note paid payment pkg_name receipt) (link_payer env payment.id c.id s)

    abbrev pub is_some : Option Customer → Bool
    is_some none = false
    is_some (some c) = true

    unfoldable pub process_underpayment :
        StkPayment → F → Text → Text → StkState → Handled × StkState
    process_underpayment payment paid receipt phone s =
        let payer = payer_for env payment phone s in
        if env.fails underpay_payment
        then (broke, s)
        else if count_where (is_unfinished payment.id) s.payments == 0
        then (handled, s)
        else committed_or
            (keep_as_credit paid payment (package_name payment s) receipt payer (
              update_payments (is_unfinished payment.id)
                (underpaid_row paid
                  (underpaid_reason paid payment (package_name payment s) (is_some payer)) receipt
                  (via_of payment receipt))
                s))
            s
