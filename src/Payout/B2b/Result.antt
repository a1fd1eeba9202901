-- ===== src/Payout/B2b/Result.antt =====
-- Safaricom's asynchronous word on a payout (services/payout.go: `numberOf`, `stringOf`,
-- `HandleB2BResult`, `HandleB2BTimeout`).
use zyranet_api.Base.{
  ℕ, Bool, true, false, ◌&&◌, Option, none, some, List, [], ◌++◌, if◌then◌else◌, find_first,
}
use zyranet_api.Text.{Text, bytes, text_eq}
use zyranet_api.Json.{
  Json, text, number, object, list, null, other, Fields, no_fields, field_of, object_in, FloatOps,
}
use zyranet_api.Mpesa.Creds.{is_empty}
use zyranet_api.Payout.Rows.{
  Payout, PayDb, PayResult, ok, err, completed, failed, payout_not_found, invalid_result,
  find_payout,
}
use zyranet_api.Payout.States.{
  PayEnv, transition, truncate, is_processing, release_payments, committed,
}
use zyranet_api.Payout.B2b.Send.{dash, update_rows}

module _ {F : Type 0} (floats : FloatOps F) where
  unfoldable pub number_of : Json F → Option F
  number_of (number n) = some n
  number_of (text s) = floats.scan s
  number_of (object o) = none
  number_of (list items) = none
  number_of null = none
  number_of other = none

  unfoldable pub string_of : Json F → Text
  string_of (text s) = s
  string_of (number n) = floats.whole n
  string_of (object o) = []
  string_of (list items) = []
  string_of null = []
  string_of other = []

  abbrev pub result_of : Fields F → Option (Fields F)
  result_of payload = object_in (field_of (bytes "Result") payload)

  abbrev pub value_at : Text → Fields F → Text
  value_at key result = string_of (field_of key result)

  -- The code of a result; one that cannot be read counts as 0.
  abbrev pub code_of : Fields F → F
  code_of result = elim (number_of (field_of (bytes "ResultCode") result)) [
    | none ↦ floats.zero_float
    | some n ↦ n
  ]

  -- The payout that a result is about.
  abbrev pub matching : Text → Text → List Payout → Option Payout
  matching orig conv payouts =
      if text_eq orig []
      then if text_eq conv []
        then none
        else find_first (λ p. text_eq p.conversation_id conv) payouts
      else find_first (λ p. text_eq p.originator_conversation_id orig) payouts

  module _ (env : PayEnv) where
    abbrev pub completed_now : Fields F → Payout → Payout
    completed_now result p = record p {
      status = completed;
      reference = truncate (value_at (bytes "TransactionID") result) 100;
      result_desc = truncate (value_at (bytes "ResultDesc") result) 255;
      completed_at = some env.now;
      failure_reason = [];
    }

    abbrev pub failed_now : Fields F → Payout → Payout
    failed_now result p = record p {
      status = failed;
      result_desc = truncate (value_at (bytes "ResultDesc") result) 255;
      failure_reason =
          truncate
            (bytes "Safaricom result "
              ++ floats.whole (code_of result)
              ++ bytes ": "
              ++ value_at (bytes "ResultDesc") result)
            500;
    }

    -- A duplicate finds nothing to change, which is no error.
    abbrev pub no_matter : PayResult Bool × PayDb → PayResult (Unit {0}) × PayDb
    no_matter (err e, db) = (err e, db)
    no_matter (ok changed, db) = (ok tt, db)

    abbrev pub release_failed : ℕ → PayResult Bool × PayDb → PayDb → PayResult (Unit {0}) × PayDb
    release_failed id (err e, db') db = (err e, db)
    release_failed id (ok false, db') db = (ok tt, db')
    release_failed id (ok true, db') db = committed env (release_payments env id db') db

    abbrev pub settle_result : Fields F → Option Payout → PayDb → PayResult (Unit {0}) × PayDb
    settle_result result none db = (err payout_not_found, db)
    settle_result result (some p) db =
        if floats.is_zero (code_of result)
        then no_matter (transition env p.id is_processing (completed_now result) db)
        else release_failed p.id (transition env p.id is_processing (failed_now result) db) db

    unfoldable pub handle_b2b_result : Fields F → PayDb → PayResult (Unit {0}) × PayDb
    handle_b2b_result payload db = elim (result_of payload) [
      | none ↦ (err invalid_result, db)
      | some result ↦
          if env.fails find_payout
          then (err payout_not_found, db)
          else settle_result result
              (matching (value_at (bytes "OriginatorConversationID") result)
                (value_at (bytes "ConversationID") result) db.payouts)
              db
    ]

    abbrev pub timed_out : Text
    timed_out =
        bytes "Safaricom's queue timed out "
        ++ dash
        ++ bytes
            " the transfer may still complete. Check the M-Pesa statement, then mark it paid or failed."

    -- A payload without a Result has no conversation either.
    abbrev pub fields_or_none : Option (Fields F) → Fields F
    fields_or_none none = no_fields
    fields_or_none (some o) = o

    unfoldable pub handle_b2b_timeout : Fields F → PayDb → PayDb
    handle_b2b_timeout payload db =
        let orig =
          value_at (bytes "OriginatorConversationID") (fields_or_none (result_of payload)) in
        if is_empty orig
        then db
        else update_rows env
            (λ p. text_eq p.originator_conversation_id orig && is_processing p.status)
            (λ p. record p { failure_reason = timed_out }) db
