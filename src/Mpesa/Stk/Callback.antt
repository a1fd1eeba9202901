-- ===== src/Mpesa/Stk/Callback.antt =====
-- Safaricom's word on an STK push (services/mpesa.go, `HandleCallback`).
use zyranet_api.Base.{Bool, not, Option, none, some, [], if◌then◌else◌, find_first}
use zyranet_api.Text.{Text, bytes, text_eq}
use zyranet_api.Json.{
  Json, text, number, object, list, null, other, Fields, no_fields, Items, no_items, item, field_of,
  object_in, string_in, items_in, AmountOps,
}
use zyranet_api.Mpesa.Stk.Rows.{StkPayment, StkState, StkEnv, Handled, handled, broke, find_payment}
use zyranet_api.Mpesa.Stk.Reasons.{friendly_stk_failure_reason}
use zyranet_api.Mpesa.Stk.Success.{
  process_payment_success, process_payment_failure, process_underpayment,
}

-- What a callback says of a payment.
pub record Told (F : Type 0) : Type 0 where
  pub amount : F
  pub receipt : Text
  pub phone : Text

abbrev pub fields_or_none : {F : Type 0} → Option (Fields F) → Fields F
fields_or_none none = no_fields
fields_or_none (some o) = o

abbrev pub is_push : Text → StkPayment → Bool
is_push checkout_id p = elim p.transaction_id [
  | none ↦ Bool.false
  | some id ↦ text_eq id checkout_id
]

module _ {F : Type 0} (ops : AmountOps F) where
  open ops use {floats}

  -- A result code; one that cannot be read counts as 0.
  unfoldable pub read_code : Json F → F
  read_code (number n) = n
  read_code (text s) = elim (floats.scan s) [ none ↦ floats.zero_float | some n ↦ n ]
  read_code (object o) = floats.zero_float
  read_code (list items) = floats.zero_float
  read_code null = floats.zero_float
  read_code other = floats.zero_float

  abbrev pub told_amount : Json F → Told F → Told F
  told_amount (number n) t = record t { amount = n }
  told_amount (text s) t = t
  told_amount (object o) t = t
  told_amount (list items) t = t
  told_amount null t = t
  told_amount other t = t

  abbrev pub told_receipt : Json F → Told F → Told F
  told_receipt (text s) t = record t { receipt = s }
  told_receipt (number n) t = t
  told_receipt (object o) t = t
  told_receipt (list items) t = t
  told_receipt null t = t
  told_receipt other t = t

  abbrev pub told_phone : Json F → Told F → Told F
  told_phone (text s) t = record t { phone = s }
  told_phone (number n) t = record t { phone = floats.whole n }
  told_phone (object o) t = t
  told_phone (list items) t = t
  told_phone null t = t
  told_phone other t = t

  abbrev pub read_item : Fields F → Told F → Told F
  read_item entry t =
      let name = string_in (field_of (bytes "Name") entry) in
      let value = field_of (bytes "Value") entry in
      if text_eq name (bytes "Amount")
      then told_amount value t
      else if text_eq name (bytes "MpesaReceiptNumber")
      then told_receipt value t
      else if text_eq name (bytes "PhoneNumber")
      then told_phone value t
      else t

  unfoldable pub read_items : Items F → Told F → Told F
  read_items no_items t = t
  read_items (item i rest) t = read_items rest (read_item (fields_or_none (object_in i)) t)

  abbrev pub metadata_items : Fields F → Items F
  metadata_items answer = items_in (
      field_of (bytes "Item")
        (fields_or_none (object_in (field_of (bytes "CallbackMetadata") answer))))

  -- What a success callback says; where it does not say so, nothing was paid, by the payment's phone.
  unfoldable pub told_of : StkPayment → Fields F → Told F
  told_of payment answer =
      read_items (metadata_items answer)
        (record { amount = floats.zero_float; receipt = []; phone = payment.phone })

  module _ (env : StkEnv) where
    -- Without an amount the payment is left for the status query.
    abbrev pub settle_told : StkPayment → Told F → StkState → Handled × StkState
    settle_told payment t s =
        if not (ops.is_positive t.amount)
        then (handled, s)
        else if ops.is_short_of t.amount payment.amount
        then process_underpayment env ops payment t.amount t.receipt t.phone s
        else process_payment_success env payment t.receipt t.phone s

    abbrev pub settle_callback : Fields F → StkPayment → StkState → Handled × StkState
    settle_callback answer payment s =
        let rc = read_code (field_of (bytes "ResultCode") answer) in
        if not (floats.is_zero rc)
        then (handled, process_payment_failure env payment (friendly_stk_failure_reason ops rc) s)
        else settle_told payment (told_of payment answer) s

    abbrev pub find_push : Fields F → StkState → Option StkPayment
    find_push answer s =
        if env.fails find_payment
        then none
        else find_first (is_push (string_in (field_of (bytes "CheckoutRequestID") answer)))
            s.payments

    abbrev pub stk_callback_in : Fields F → Option (Fields F)
    stk_callback_in payload = elim (object_in (field_of (bytes "Body") payload)) [
      | none ↦ none
      | some body ↦ object_in (field_of (bytes "stkCallback") body)
    ]

    abbrev pub settle_found : Fields F → Option StkPayment → StkState → Handled × StkState
    settle_found answer none s = (broke, s)
    settle_found answer (some payment) s = settle_callback answer payment s

    abbrev pub settle_answer : Option (Fields F) → StkState → Handled × StkState
    settle_answer none s = (broke, s)
    settle_answer (some answer) s = settle_found answer (find_push answer s) s

    unfoldable pub handle_callback : Fields F → StkState → Handled × StkState
    handle_callback payload s = settle_answer (stk_callback_in payload) s
