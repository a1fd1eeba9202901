-- ===== src/Mpesa/Stk/Entries.antt =====
-- What a callback, a status query and the job for waiting pushes may change (services/mpesa.go:
-- `HandleCallback`, `QueryAndUpdateSTKStatus`; services/money_jobs.go: `ReconcilePendingSTK`).
use zyranet_api.Base.{
  ℕ, suc, ◌*◌, ◌-◌, ◌≡◌, refl, sym, ◌&&◌, ◌||◌, Option, none, some, List, [], ◌∷◌, leb, ltb,
  Bool-cases, inl, inr, subst,
}
use zyranet_api.Text.{Text, text_eq, bytes}
use zyranet_api.Json.{AmountOps, Fields, field_of, string_in}
use zyranet_api.Router.Health.{second}
use zyranet_api.Mpesa.Stk.Rows.{
  StkPayment, StkState, StkEnv, Handled, handled, broke, StkStatus, find_pending,
}
use zyranet_api.Mpesa.Stk.Callback.{
  handle_callback, settle_answer, settle_found, settle_told, read_code, Told, find_push, told_of,
}
use zyranet_api.Mpesa.Stk.Query.{
  Daraja, query_and_update_stk_status, ask_about, ask, apply_reply, settle_query, told_completed,
  reconcile_one, close_if_old, reconcile_each, reconcile_pending_stk, is_throttled, note_asked,
  is_null, is_unresolved, age, is_pending_status, stk_reconcile_until,
}
use zyranet_api.Mpesa.Stk.Evolves.{Evolves, Evolves-refl, Evolves-trans}
use zyranet_api.Mpesa.Stk.Steps.{aside}
use zyranet_api.Mpesa.Stk.Outcomes.{success-Evolves, failure-Evolves, underpayment-Evolves}

module _ {F : Type 0} (ops : AmountOps F) where
  open ops use {floats}

  module _ (env : StkEnv) where
    told-Evolves :
        (payment : StkPayment) (t : Told F) (s : StkState)
        → Evolves s (settle_told ops env payment t s).1
    told-Evolves payment t s = elim (Bool-cases (ops.is_positive t.amount)) [
      | inr unpaid ↦ rw unpaid (Evolves-refl s)
      | inl paid ↦ rw paid (elim (Bool-cases (ops.is_short_of t.amount payment.amount)) [
        | inl short ↦ rw short (underpayment-Evolves env ops payment t.amount t.receipt t.phone s)
        | inr enough ↦ rw enough (success-Evolves env payment t.receipt t.phone s)
      ])
    ]

    found-Evolves :
        (answer : Fields F) (found : Option StkPayment) (s : StkState)
        → Evolves s (settle_found ops env answer found s).1
    found-Evolves answer none s = Evolves-refl s
    found-Evolves answer (some payment) s =
        elim (Bool-cases (floats.is_zero (read_code ops (field_of (bytes "ResultCode") answer)))) [
          | inl succeeded ↦ rw succeeded (told-Evolves payment (told_of ops payment answer) s)
          | inr not_so ↦ rw not_so (failure-Evolves env payment _ s)
        ]

    answer-Evolves :
        (answer : Option (Fields F)) (s : StkState) → Evolves s (settle_answer ops env answer s).1
    answer-Evolves none s = Evolves-refl s
    answer-Evolves (some answer) s = found-Evolves answer (find_push ops env answer s) s

    pub callback-Evolves :
        (payload : Fields F) (s : StkState) → Evolves s (handle_callback ops env payload s).1
    unfolding handle_callback
    callback-Evolves payload s = answer-Evolves _ s

    module _ (daraja : Daraja F) where
      told_completed-state : (r : Handled × StkState) → (told_completed ops env daraja r).2 ≡ r.1
      told_completed-state (handled, s) = refl
      told_completed-state (broke, s) = refl

      settle_query-Evolves :
          (payment : StkPayment) (checkout_id : Text) (reply : Fields F) (rc : F) (desc : Text)
          (s : StkState)
          → Evolves s (settle_query ops env daraja payment checkout_id reply rc desc s).2
      settle_query-Evolves payment checkout_id reply rc desc s =
          elim (Bool-cases (floats.is_zero rc)) [
            | inl succeeded ↦ rw succeeded (
                subst (Evolves s) (sym (told_completed-state _))
                  (success-Evolves env payment _ payment.phone s))
            | inr not_so ↦ rw not_so (elim (Bool-cases (is_unresolved ops env daraja rc desc)) [
              | inl unresolved ↦
                  rw unresolved
                    (elim (Bool-cases (ltb (age ops env daraja payment) (150 * second))) [
                      | inl young ↦ rw young (Evolves-refl s)
                      | inr old ↦ rw old (failure-Evolves env payment _ s)
                    ])
              | inr resolved ↦ rw resolved (failure-Evolves env payment _ s)
            ])
          ]

      reply-Evolves :
          (payment : StkPayment) (checkout_id : Text) (reply : Option (Fields F)) (s : StkState)
          → Evolves s (apply_reply ops env daraja payment checkout_id reply s).2
      reply-Evolves payment checkout_id none s = Evolves-refl s
      reply-Evolves payment checkout_id (some reply) s =
          let code = string_in (field_of (bytes "errorCode") reply) in
          elim (Bool-cases
            (text_eq code (bytes "500.001.1001") || text_eq code (bytes "404.002.02"))) [
              | inl busy ↦ rw busy (Evolves-refl s)
              | inr decided ↦
                  rw decided
                    (elim (Bool-cases
                      (text_eq (string_in (field_of (bytes "ResponseCode") reply)) (bytes "0"))) [
                        | inr refused ↦ rw refused (Evolves-refl s)
                        | inl accepted ↦
                            rw accepted
                              (elim (Bool-cases (is_null (field_of (bytes "ResultCode") reply))) [
                                | inl open_yet ↦ rw open_yet (Evolves-refl s)
                                | inr known ↦
                                    rw known (settle_query-Evolves payment checkout_id reply _ _ s)
                              ])
                      ])
            ]

      ask-Evolves :
          (payment : StkPayment) (checkout_id : Text) (s : StkState)
          → Evolves s (ask ops env daraja payment checkout_id s).2
      ask-Evolves payment checkout_id s =
          elim (Bool-cases (ltb (age ops env daraja payment) (3 * second))) [
            | inl young ↦ rw young (Evolves-refl s)
            | inr waited ↦
                rw waited (elim (Bool-cases (is_throttled ops env daraja checkout_id s)) [
                  | inl recent ↦ rw recent (Evolves-refl s)
                  | inr free ↦
                      let asked = note_asked ops env daraja checkout_id s in
                      let step : Evolves s asked = aside env refl refl refl in
                      rw free (Evolves-trans step (reply-Evolves payment checkout_id _ asked))
                ])
          ]

      about-Evolves :
          (push : Option Text) (payment : StkPayment) (s : StkState)
          → Evolves s (ask_about ops env daraja push payment s).2
      about-Evolves none payment s = Evolves-refl s
      about-Evolves (some checkout_id) payment s = elim (Bool-cases (text_eq checkout_id [])) [
        | inl empty ↦ rw empty (Evolves-refl s)
        | inr named ↦ rw named (ask-Evolves payment checkout_id s)
      ]

      pub query-Evolves :
          (payment : StkPayment) (s : StkState)
          → Evolves s (query_and_update_stk_status ops env daraja payment s).2
      unfolding query_and_update_stk_status
      query-Evolves payment s = about-Evolves payment.transaction_id payment s

      closed-Evolves :
          (started : ℕ) (payment : StkPayment) (r : StkStatus × Handled × StkState)
          → Evolves r.2 (close_if_old ops env daraja started payment r)
      closed-Evolves started payment (status, h, s) =
          elim (Bool-cases
            (is_pending_status status && leb stk_reconcile_until (started - payment.created_at))) [
              | inl old ↦ rw old (failure-Evolves env payment _ s)
              | inr young ↦ rw young (Evolves-refl s)
            ]

      pub reconcile_one-Evolves :
          (started : ℕ) (payment : StkPayment) (s : StkState)
          → Evolves s (reconcile_one ops env daraja started payment s)
      unfolding reconcile_one
      reconcile_one-Evolves started payment s =
          Evolves-trans (query-Evolves payment s)
            (closed-Evolves started payment (query_and_update_stk_status ops env daraja payment s))

  pub reconcile_each-Evolves :
      (calls : ℕ → StkEnv × Daraja F) (i started : ℕ) (ps : List StkPayment) (s : StkState)
      → Evolves s (reconcile_each ops calls i started ps s)
  unfolding reconcile_each
  reconcile_each-Evolves calls i started [] s = Evolves-refl s
  reconcile_each-Evolves calls i started (p ∷ ps) s =
      Evolves-trans (reconcile_one-Evolves (calls i).0 (calls i).1 started p s)
        (reconcile_each-Evolves calls (suc i) started ps _)

  pub reconcile-Evolves :
      (env : StkEnv) (calls : ℕ → StkEnv × Daraja F) (s : StkState)
      → Evolves s (reconcile_pending_stk ops env calls s)
  unfolding reconcile_pending_stk
  reconcile-Evolves env calls s = elim (Bool-cases (env.fails find_pending)) [
    | inl failing ↦ rw failing (Evolves-refl s)
    | inr works ↦ rw works (reconcile_each-Evolves calls 0 env.now _ s)
  ]
