-- ===== src/Mpesa/Stk/Query.antt =====
-- Asking Safaricom about a push (services/mpesa.go: `QuerySTKPushStatus`, `QueryAndUpdateSTKStatus`,
-- `RecentPendingSTK`; services/money_jobs.go: `ReconcilePendingSTK`). The Daraja token and the exchange
-- over HTTP are parameters.
use zyranet_api.Base.{
  ℕ, suc, ◌+◌, ◌-◌, ◌*◌, Bool, true, false, not, ◌&&◌, ◌||◌, Option, none, some, List, [], ◌∷◌,
  ◌++◌, ltb, leb, ◌==◌, if◌then◌else◌, length, select, find_first, find_last, first_rows,
}
use zyranet_api.Text.{Text, bytes, text_eq, to_lower, trim_space}
use zyranet_api.Text.Cut.{contains, drop, has_text}
use zyranet_api.Json.{
  Json, text, null, Fields, no_fields, field, field_of, string_in, Items, no_items, item, object_in,
  AmountOps,
}
use zyranet_api.Utils.Phone.{format_phone}
use zyranet_api.Router.Health.{second}
use zyranet_api.Mpesa.Creds.{Creds, MpesaConfig, is_empty}
use zyranet_api.Mpesa.Routes.{missing_fields, mock_allowed}
use zyranet_api.Mpesa.Stk.Rows.{
  StkStatus, pending, completed, failed, StkPayment, StkState, StkEnv, Handled, handled, broke,
  find_pending,
}
use zyranet_api.Mpesa.Stk.Reasons.{friendly_stk_failure_reason, unconfirmed_reason}
use zyranet_api.Mpesa.Stk.Success.{placeholder, process_payment_success, process_payment_failure}
use zyranet_api.Mpesa.Stk.Callback.{read_code, metadata_items, fields_or_none}

-- The configuration, the token that Daraja gives for an app, and what it answers about a push (nothing,
-- if it cannot be reached).
pub record Daraja (F : Type 0) : Type 0 where
  pub config : MpesaConfig
  pub token : Creds → Option Text
  pub exchange : Creds → Text → Text → Option (Fields F)

abbrev pub is_nil : List Text → Bool
is_nil [] = true
is_nil (x ∷ xs) = false

abbrev pub is_null : {F : Type 0} → Json F → Bool
is_null null = true
is_null _ = false

abbrev pub is_pending_status : StkStatus → Bool
is_pending_status pending = true
is_pending_status completed = false
is_pending_status failed = false

abbrev pub has_push : StkPayment → Bool
has_push p = elim p.transaction_id [ none ↦ false | some id ↦ not (text_eq id []) ]

-- A push that the customer has not answered.
abbrev pub is_waiting_push : StkPayment → Bool
is_waiting_push p = text_eq p.method (bytes "mpesa") && is_pending_status p.status && has_push p

-- Waiting pushes are looked at in this window of ages.
abbrev pub stk_reconcile_after : ℕ
stk_reconcile_after = 120 * second

abbrev pub stk_reconcile_until : ℕ
stk_reconcile_until = 1800 * second

module _ {F : Type 0} (ops : AmountOps F) where
  open ops use {floats}

  abbrev pub mock_reply : Fields F
  mock_reply = field (bytes "ResponseCode") (text (bytes "0")) (
      field (bytes "ResultCode") (text (bytes "0"))
        (field (bytes "ResultDesc") (text (bytes "Mock STK Query Success")) no_fields))

  module _ (env : StkEnv) (daraja : Daraja F) where
    unfoldable pub query_stk_push_status : ℕ → Text → Option (Fields F)
    query_stk_push_status zone_id checkout_id =
        let creds = env.creds zone_id in
        if creds.own
          && not (mock_allowed daraja.config creds)
          && not (is_nil (missing_fields creds))
        then none
        else elim (daraja.token creds) [
          | none ↦ none
          | some token ↦
              if not (text_eq (to_lower creds.env) (bytes "production"))
                && text_eq token (bytes "mock_token")
                && mock_allowed daraja.config creds
              then some mock_reply
              else daraja.exchange creds checkout_id token
        ]

    abbrev pub receipt_of_item : Fields F → Text → Text
    receipt_of_item entry receipt =
        if text_eq (string_in (field_of (bytes "Name") entry)) (bytes "MpesaReceiptNumber")
          && not (is_empty (string_in (field_of (bytes "Value") entry)))
        then string_in (field_of (bytes "Value") entry)
        else receipt

    unfoldable pub receipt_in : Items F → Text → Text
    receipt_in no_items receipt = receipt
    receipt_in (item i rest) receipt =
        receipt_in rest (receipt_of_item (fields_or_none (object_in i)) receipt)

    -- Safaricom has not decided yet.
    abbrev pub is_unresolved : F → Text → Bool
    is_unresolved rc desc =
        ops.is_code rc 4999
        || ops.is_code rc 2029
        || contains (to_lower desc) (bytes "unresolved")
        || contains (to_lower desc) (bytes "under processing")
        || contains (to_lower desc) (bytes "in progress")

    abbrev pub age : StkPayment → ℕ
    age payment = env.now - payment.created_at

    abbrev pub told_completed : Handled × StkState → StkStatus × Handled × StkState
    told_completed (handled, s) = (completed, handled, s)
    told_completed (broke, s) = (pending, broke, s)

    abbrev pub settle_query :
        StkPayment → Text → Fields F → F → Text → StkState → StkStatus × Handled × StkState
    settle_query payment checkout_id reply rc desc s =
        if floats.is_zero rc
        then told_completed (
            process_payment_success env payment
              (receipt_in (metadata_items ops reply) (placeholder ++ checkout_id)) payment.phone s)
        else if is_unresolved rc desc
        then if ltb (age payment) (150 * second)
          then (pending, handled, s)
          else (failed, handled, process_payment_failure env payment unconfirmed_reason s)
        else (
          failed,
          handled,
          process_payment_failure env payment (friendly_stk_failure_reason ops rc) s,
        )

    abbrev pub apply_reply :
        StkPayment → Text → Option (Fields F) → StkState → StkStatus × Handled × StkState
    apply_reply payment checkout_id none s = (pending, broke, s)
    apply_reply payment checkout_id (some reply) s =
        let code = string_in (field_of (bytes "errorCode") reply) in
        if text_eq code (bytes "500.001.1001") || text_eq code (bytes "404.002.02")
        then (pending, handled, s)
        else if not (text_eq (string_in (field_of (bytes "ResponseCode") reply)) (bytes "0"))
        then (pending, handled, s)
        else if is_null (field_of (bytes "ResultCode") reply)
        then (pending, handled, s)
        else settle_query payment checkout_id reply
            (read_code ops (field_of (bytes "ResultCode") reply))
            (string_in (field_of (bytes "ResultDesc") reply)) s

    abbrev pub last_asked : Text → StkState → Option (Text × ℕ)
    last_asked checkout_id s = find_first (λ e. text_eq e.0 checkout_id) s.throttles

    abbrev pub is_throttled : Text → StkState → Bool
    is_throttled checkout_id s = elim (last_asked checkout_id s) [
      | none ↦ false
      | some (key, asked) ↦ ltb (env.now - asked) (2 * second)
    ]

    abbrev pub note_asked : Text → StkState → StkState
    note_asked checkout_id s = record s { throttles = (checkout_id, env.now) ∷ s.throttles }

    abbrev pub ask : StkPayment → Text → StkState → StkStatus × Handled × StkState
    ask payment checkout_id s =
        if ltb (age payment) (3 * second)
        then (pending, handled, s)
        else if is_throttled checkout_id s
        then (payment.status, handled, s)
        else apply_reply payment checkout_id (query_stk_push_status payment.zone_id checkout_id)
            (note_asked checkout_id s)

    abbrev pub ask_about : Option Text → StkPayment → StkState → StkStatus × Handled × StkState
    ask_about none payment s = (pending, broke, s)
    ask_about (some checkout_id) payment s =
        if text_eq checkout_id [] then (pending, broke, s) else ask payment checkout_id s

    -- The status that the caller is told, and whether there was an error.
    unfoldable pub query_and_update_stk_status :
        StkPayment → StkState → StkStatus × Handled × StkState
    query_and_update_stk_status payment s = ask_about payment.transaction_id payment s

    -- `started` is when the job began.
    abbrev pub close_if_old : ℕ → StkPayment → StkStatus × Handled × StkState → StkState
    close_if_old started payment (status, h, s) =
        if is_pending_status status && leb stk_reconcile_until (started - payment.created_at)
        then process_payment_failure env payment unconfirmed_reason s
        else s

    unfoldable pub reconcile_one : ℕ → StkPayment → StkState → StkState
    reconcile_one started payment s =
        close_if_old started payment (query_and_update_stk_status payment s)

  abbrev pub Calls : Type 0
  Calls = ℕ → StkEnv × Daraja F

  -- The `i`-th payment meets the `i`-th environment.
  unfoldable pub reconcile_each : Calls → ℕ → ℕ → List StkPayment → StkState → StkState
  reconcile_each calls i started [] s = s
  reconcile_each calls i started (p ∷ ps) s =
      reconcile_each calls (suc i) started ps (reconcile_one (calls i).0 (calls i).1 started p s)

  abbrev pub is_due : ℕ → StkPayment → Bool
  is_due started p =
      is_waiting_push p
      && leb (p.created_at + stk_reconcile_after) started
      && leb started (p.created_at + stk_reconcile_until + 300 * second)

  -- At most a hundred waiting pushes that are 2 to 35 minutes old.
  unfoldable pub reconcile_pending_stk : StkEnv → Calls → StkState → StkState
  reconcile_pending_stk env calls s =
      if env.fails find_pending
      then s
      else reconcile_each calls 0 env.now (first_rows 100 (select (is_due env.now) s.payments)) s

-- The ways in which a client may have written a telephone number.
abbrev pub spellings : Text → List Text
spellings phone =
    let f = format_phone phone in
    phone ∷ (if length f == 12 then f ∷ (b'+' ∷ f) ∷ (b'0' ∷ drop 3 f) ∷ [] else [])

-- A push of the last `within` that waits on the same phone, or on the same device in the same zone.
unfoldable pub recent_pending_stk : StkEnv → Text → Text → ℕ → ℕ → StkState → Option StkPayment
recent_pending_stk env phone mac zone_id within s =
    if env.fails find_pending
    then none
    else find_last
        (λ p.
          is_waiting_push p
          && leb (env.now - within) p.created_at
          && (has_text p.phone (spellings phone)
              || not (text_eq (trim_space mac) [])
                && text_eq p.mac_address (trim_space mac)
                && p.zone_id == zone_id))
        s.payments
