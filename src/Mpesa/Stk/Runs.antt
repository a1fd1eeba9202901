-- ===== src/Mpesa/Stk/Runs.antt =====
-- Any calls about payments in any order (services/mpesa.go, services/money_jobs.go), each in an
-- environment of its own. A call that was begun with an older copy of the payment is one of them.
use zyranet_api.Base.{ℕ, ◌≡◌, sym, ◌∙◌, List, [], ◌∷◌, ◌++◌, subst}
use zyranet_api.Text.{Text}
use zyranet_api.Json.{AmountOps, Fields}
use zyranet_api.Mpesa.Stk.Rows.{StkPayment, StkState, StkEnv, CreditLog}
use zyranet_api.Mpesa.Stk.Success.{
  process_payment_success, process_payment_failure, process_underpayment,
}
use zyranet_api.Mpesa.Stk.Callback.{handle_callback}
use zyranet_api.Mpesa.Stk.Query.{Daraja, query_and_update_stk_status, reconcile_pending_stk}
use zyranet_api.Mpesa.Stk.Evolves.{Evolves, Evolves-refl, Evolves-trans, Kept, Moved, AllCredits}
use zyranet_api.Mpesa.Stk.Outcomes.{success-Evolves, failure-Evolves, underpayment-Evolves}
use zyranet_api.Mpesa.Stk.Entries.{callback-Evolves, query-Evolves, reconcile-Evolves}

append-cancel : (xs ys zs : List CreditLog) → xs ++ ys ≡ xs ++ zs → ys ≡ zs
append-cancel [] ys zs h = h
append-cancel (x ∷ xs) ys zs h = append-cancel xs ys zs (cc h)

pub data StkCall (F : Type 0) : Type 0 where
  callback : Fields F → StkCall F
  query : StkPayment → StkCall F
  reconcile : (ℕ → StkEnv × Daraja F) → StkCall F
  success : StkPayment → Text → Text → StkCall F
  underpaid : StkPayment → F → Text → Text → StkCall F
  failure : StkPayment → Text → StkCall F

module _ {F : Type 0} (ops : AmountOps F) where
  unfoldable pub serve : StkEnv → Daraja F → StkCall F → StkState → StkState
  serve env daraja (callback payload) s = (handle_callback ops env payload s).1
  serve env daraja (query payment) s = (query_and_update_stk_status ops env daraja payment s).2
  serve env daraja (reconcile calls) s = reconcile_pending_stk ops env calls s
  serve env daraja (success payment receipt phone) s =
      (process_payment_success env payment receipt phone s).1
  serve env daraja (underpaid payment paid receipt phone) s =
      (process_underpayment env ops payment paid receipt phone s).1
  serve env daraja (failure payment reason) s = process_payment_failure env payment reason s

  serve-Evolves :
      (env : StkEnv) (daraja : Daraja F) (call : StkCall F) (s : StkState)
      → Evolves s (serve env daraja call s)
  unfolding serve
  serve-Evolves env daraja (callback payload) s = callback-Evolves ops env payload s
  serve-Evolves env daraja (query payment) s = query-Evolves ops env daraja payment s
  serve-Evolves env daraja (reconcile calls) s = reconcile-Evolves ops env calls s
  serve-Evolves env daraja (success payment receipt phone) s =
      success-Evolves env payment receipt phone s
  serve-Evolves env daraja (underpaid payment paid receipt phone) s =
      underpayment-Evolves env ops payment paid receipt phone s
  serve-Evolves env daraja (failure payment reason) s = failure-Evolves env payment reason s

  unfoldable pub serve_all : List (StkEnv × Daraja F × StkCall F) → StkState → StkState
  serve_all [] s = s
  serve_all ((env, daraja, call) ∷ calls) s = serve_all calls (serve env daraja call s)

  pub serve_all-Evolves :
      (calls : List (StkEnv × Daraja F × StkCall F)) (s : StkState) → Evolves s (serve_all calls s)
  unfolding serve_all
  serve_all-Evolves [] s = Evolves-refl s
  serve_all-Evolves ((env, daraja, call) ∷ calls) s =
      Evolves-trans (serve-Evolves env daraja call s) (serve_all-Evolves calls _)

  -- Through any calls in any order, whatever statements fail: no payment is lost or added, one that is
  -- completed stays so for the same amount, package, zone and channel, with its receipt unless that was
  -- a placeholder, and none waits again that was completed or had failed.
  pub serve_all-Kept :
      (calls : List (StkEnv × Daraja F × StkCall F)) (s : StkState)
      → Kept s.payments (serve_all calls s).payments
  serve_all-Kept calls s = (serve_all-Evolves calls s).kept

  -- Through any calls in any order, whatever statements fail: the log of credit only grows, and where
  -- the added lines are credits, every customer who was there is there, in the same place, with the old
  -- balance and exactly what those lines say for that customer.
  pub serve_all-Moved :
      (calls : List (StkEnv × Daraja F × StkCall F)) (s : StkState) (logged : List CreditLog)
      → (serve_all calls s).credit_logs ≡ s.credit_logs ++ logged
      → AllCredits logged
      → Moved logged s.base.customers (serve_all calls s).base.customers
  serve_all-Moved calls s logged grows credits =
      let run = serve_all-Evolves calls s in
      let same : run.logged ≡ logged =
        append-cancel s.credit_logs run.logged logged (sym run.logs ∙ grows) in
      subst (λ l. Moved l s.base.customers (serve_all calls s).base.customers) same
        (run.balances (rw same credits))
