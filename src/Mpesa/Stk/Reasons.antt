-- ===== src/Mpesa/Stk/Reasons.antt =====
-- What a customer is told of a payment that did not go through (services/mpesa.go:
-- `friendlySTKFailureReason` and the reasons next to it).
use zyranet_api.Base.{◌||◌, ◌++◌, if◌then◌else◌}
use zyranet_api.Text.{Text, bytes}
use zyranet_api.Json.{AmountOps}

abbrev pub processing_reason : Text
processing_reason = bytes "The transaction is still under processing"

abbrev pub no_response_reason : Text
no_response_reason =
    bytes
      "You didn't respond to the M-Pesa prompt. Please try again and enter your PIN when it pops up."

abbrev pub unconfirmed_reason : Text
unconfirmed_reason =
    bytes "M-Pesa didn't confirm this payment. If money left your M-Pesa, contact support with "
    ++ bytes "the M-Pesa message; otherwise please try again."

unfoldable pub friendly_stk_failure_reason : {F : Type 0} → AmountOps F → F → Text
friendly_stk_failure_reason ops rc =
    if ops.is_code rc 1
    then bytes
        "Payment failed: not enough money in your M-Pesa account. Top up M-Pesa and try again."
    else if ops.is_code rc 1032
    then bytes "Payment cancelled. You closed the M-Pesa prompt before approving it."
    else if ops.is_code rc 1037 || ops.is_code rc 1038
    then no_response_reason
    else if ops.is_code rc 4999 || ops.is_code rc 2029
    then unconfirmed_reason
    else if ops.is_code rc 1025 || ops.is_code rc 9999
    then bytes "We couldn't process this payment. Please try again."
    else if ops.is_code rc 2001
    then bytes "Payment failed: wrong M-Pesa PIN entered. Please try again with the correct PIN."
    else if ops.is_code rc 1001
    then bytes "Payment failed: you have another M-Pesa transaction in progress. Please finish "
      ++ bytes "or cancel it, then try again."
    else if ops.is_code rc 1019
    then bytes "Payment request expired. Please try again."
    else bytes "Payment could not be completed. Please try again, or contact support if you "
      ++ bytes "were charged."
