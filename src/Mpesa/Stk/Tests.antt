-- ===== src/Mpesa/Stk/Tests.antt =====
-- Runs of payments at concrete values (services/mpesa.go, services/credit.go).
use zyranet_api.Base.{
  List, ℕ, suc, ◌≡◌, ◌*◌, refl, true, false, some, none, [], ◌∷◌, ◌++◌, ◌⊎◌, ◌==◌, arith, ltb, map,
}
use zyranet_api.Int.{ℤ, pos, negsuc, ◌+ℤ◌}
use zyranet_api.Text.{Text, bytes, text_eq, to_upper}
use zyranet_api.Models.{Customer, CustomerStatus}
use zyranet_api.Json.{
  AmountOps, Fields, no_fields, field, text, number, object, list, item, no_items,
}
use zyranet_api.Ledger.Samples.{shop}
use zyranet_api.Mpesa.Creds.{Creds, MpesaConfig}
use zyranet_api.Mpesa.Routes.{collection_channel, is_production, direct, not_real}
use zyranet_api.Mpesa.Stk.Rows.{StkPayment, StkState, StkEnv, pending, handled, CreditLog}
use zyranet_api.Mpesa.Stk.Payer.{adjust_credit}
use zyranet_api.Mpesa.Stk.Success.{
  process_payment_success, process_payment_failure, process_underpayment,
  upgrade_placeholder_receipt, top_up, deliver,
}
use zyranet_api.Mpesa.Stk.Callback.{handle_callback, read_code, read_items, told_of}
use zyranet_api.Mpesa.Stk.Query.{Daraja}
use zyranet_api.Mpesa.Stk.Evolves.{Kept, Moved}
use zyranet_api.Mpesa.Stk.Runs.{
  serve, serve_all, callback, failure, serve_all-Kept, serve_all-Moved,
}
use zyranet_api.Mpesa.Stk.Once.{delivered_once}
use zyranet_api.Router.Health.{second}
use zyranet_api.Mpesa.Stk.Rows.{ActionKind, RouterAction, waiting}
use zyranet_api.Mpesa.Stk.Granting.{action_for}
use zyranet_api.Mpesa.Stk.Query.{reconcile_pending_stk}
use zyranet_api.Mpesa.Stk.Closing.{NoneWaits, reconcile_closes}
use zyranet_api.Mpesa.Stk.Actions.{
  run_due_router_actions, run_each, requeue_stale, run_router_action, execute_router_action,
  finished,
}
use zyranet_api.Mpesa.Stk.Actions.Uses.{UsesTries}
use zyranet_api.Mpesa.Stk.Actions.Tries.{
  QueueCall, run_due, serve_queue, work_off, tries_in, tries_in_all, tries_in_each,
  work_off-UsesTries,
}
use zyranet_api.Mpesa.Stk.Order.{answers_commute}
use zyranet_api.Text.{trim_space}
use zyranet_api.Mpesa.Stk.Payer.{own_customer, customer_by_phone_for_zone, same_isp}
use zyranet_api.Mpesa.Stk.Granting.{
  grant, prepare_voucher, notify_router, enqueue_router_action, resolve_customer, register_customer,
  link_device, subscribe, better_name,
}
use zyranet_api.Mpesa.Stk.Balance.{AllSolvent, adjust_credit-AllSolvent}

abbrev shared_app : Creds
shared_app = record {
  consumer_key = bytes "key";
  consumer_secret = bytes "secret";
  shortcode = bytes "600100";
  passkey = bytes "pass";
  callback_url = [];
  env = bytes "production";
  billing_type = bytes "paybill";
  till_number = [];
  paybill_number = [];
  paybill_account = [];
  own = false;
  direct_till = [];
  direct_paybill = [];
  direct_account = [];
}

abbrev env : StkEnv
env = record {
  now = 9;
  add_month = λ t. suc t;
  creds = λ z. shared_app;
  vouchers = none;
  fails = λ s. false;
}

-- Whole shillings for float64.
abbrev ops : AmountOps ℕ
ops = record {
  floats = record { zero_float = 0; is_zero = λ n. n == 0; scan = λ s. none; whole = λ n. [] };
  is_positive = λ n. ltb 0 n;
  is_code = λ n k. n == k;
  is_short_of = λ n a. elim a [ pos cents ↦ ltb (100 * n) cents | negsuc c ↦ false ];
  hundredths = λ n. pos (100 * n);
  two_places = λ n. [];
}

abbrev config : MpesaConfig
config = record {
  consumer_key = [];
  consumer_secret = [];
  shortcode = [];
  passkey = [];
  callback_url = [];
  env = [];
  app_env = [];
  callback_secret = [];
}

abbrev daraja : Daraja ℕ
daraja = record { config = config; token = λ c. none; exchange = λ c id t. none }

-- A push for an amount of hundredths.
abbrev push : ℕ → ℤ → StkPayment
push id amount = record {
  id = id;
  customer_id = some 1;
  voucher_id = none;
  zone_id = 4;
  package_id = none;
  phone = bytes "0711";
  amount = amount;
  method = bytes "mpesa";
  transaction_id = some (bytes "ws_1");
  receipt = [];
  status = pending;
  status_reason = [];
  mac_address = [];
  ip_address = [];
  collected_via = not_real;
  created_at = 1;
}

abbrev amina : Customer
amina = record {
  id = 1;
  name = bytes "Amina";
  phone = bytes "0711";
  zone_id = 4;
  package_id = 6;
  kind = bytes "hotspot";
  status = CustomerStatus.expired;
  expires_at = none;
  pppoe_username = none;
  mac_address = none;
  credit_balance = pos 300;
}

abbrev start : StkState
start = record {
  base = record shop { customers = amina ∷ []; next_customer = 2 };
  payments =
      push 7 (pos 5000)
      ∷ record (push 8 (pos 1000)) {
        customer_id = none;
        package_id = some 6;
        transaction_id = some (bytes "ws_2");
        mac_address = bytes "AA";
      }
      ∷ [];
  devices = [];
  next_device = 1;
  credit_logs = [];
  actions = [];
  next_action = 1;
  unmatched = [];
  throttles = [];
}

-- Safaricom's callback for a push, in whole shillings.
abbrev paid : Text → ℕ → Fields ℕ
paid push_id amount =
    field (bytes "Body")
      (object (
        field (bytes "stkCallback")
          (object (
            field (bytes "CheckoutRequestID") (text push_id) (
              field (bytes "ResultCode") (number 0) (
                field (bytes "CallbackMetadata")
                  (object (
                    field (bytes "Item")
                      (list (
                        item
                          (object (
                            field (bytes "Name") (text (bytes "Amount"))
                              (field (bytes "Value") (number amount) no_fields)))
                          (item
                            (object (
                              field (bytes "Name") (text (bytes "MpesaReceiptNumber"))
                                (field (bytes "Value") (text (bytes "QK1")) no_fields)))
                            no_items)))
                      no_fields))
                  no_fields))))
          no_fields))
      no_fields

abbrev topped_up : StkState
topped_up = (handle_callback ops env (paid (bytes "ws_1") 50) start).1

-- A payment for no package is on the balance and in the log.
topped_up_balance :
    map (λ (c : Customer). c.credit_balance) topped_up.base.customers ≡ pos 5300 ∷ []
unfolding handle_callback read_code read_items told_of process_payment_success deliver top_up
    adjust_credit collection_channel is_production direct text_eq to_upper ◌+ℤ◌
topped_up_balance = refl

serve_all-Kept_example :
    Kept start.payments
      (serve_all ops
        ((env, daraja, callback (paid (bytes "ws_1") 50))
          ∷ (env, daraja, failure (push 7 (pos 5000)) [])
          ∷ [])
        start).payments
serve_all-Kept_example =
    serve_all-Kept ops
      ((env, daraja, callback (paid (bytes "ws_1") 50))
        ∷ (env, daraja, failure (push 7 (pos 5000)) [])
        ∷ [])
      start

delivered_once_example :
    let before =
      serve_all ops
        ((env, daraja, callback (paid (bytes "ws_2") 10)) ∷ [])
        (process_payment_success env
          (push 7 (pos 5000))
          (bytes "QRY_ws_1")
          (bytes "0711")
          start).1 in
    (process_payment_success env (push 7 (pos 5000)) (bytes "QK1") (bytes "0711") before
      ≡ (handled, upgrade_placeholder_receipt env 7 (bytes "QK1") before))
    × ((process_underpayment env ops (push 7 (pos 5000)) 3 (bytes "QK1") (bytes "0711") before).1
        ≡ before)
    × (process_payment_failure env (push 7 (pos 5000)) [] before ≡ before)
delivered_once_example =
    delivered_once ops env env (push 7 (pos 5000)) (push 7 (pos 5000)) (bytes "QRY_ws_1")
      (bytes "QK1") (bytes "0711") (bytes "0711") [] 3
      ((env, daraja, callback (paid (bytes "ws_2") 10)) ∷ []) start refl refl

abbrev top_up_line : CreditLog
top_up_line = record {
  customer_id = 1;
  amount = pos 5000;
  note = bytes "M-Pesa top-up (Receipt: QK1)";
}

top_up_run :
    (serve_all ops ((env, daraja, callback (paid (bytes "ws_1") 50)) ∷ []) start).credit_logs
    ≡ start.credit_logs ++ top_up_line ∷ []
unfolding serve_all serve handle_callback read_code read_items told_of process_payment_success
    deliver top_up adjust_credit collection_channel is_production direct text_eq to_upper ◌+ℤ◌
top_up_run = refl

serve_all-Moved_example :
    Moved
      (top_up_line ∷ [])
      start.base.customers
      (serve_all ops ((env, daraja, callback (paid (bytes "ws_1") 50)) ∷ []) start).base.customers
serve_all-Moved_example =
    serve_all-Moved ops ((env, daraja, callback (paid (bytes "ws_1") 50)) ∷ []) start
      (top_up_line ∷ []) top_up_run (refl, tt)

adjust_credit-AllSolvent_example :
    AllSolvent (adjust_credit 1 (negsuc 399) (amina ∷ [])).1
    × (((adjust_credit 1 (negsuc 399) (amina ∷ [])).0 ≡ true)
        ⊎ ((adjust_credit 1 (negsuc 399) (amina ∷ [])).1 ≡ amina ∷ []))
adjust_credit-AllSolvent_example =
    adjust_credit-AllSolvent 1 (negsuc 399) (amina ∷ []) (refl, tt) (omega arith)

abbrev purchase : StkPayment
purchase = record (push 8 (pos 1000)) {
  customer_id = none;
  package_id = some 6;
  transaction_id = some (bytes "ws_2");
  mac_address = bytes "AA";
}

answers_commute_example :
    (process_payment_success env purchase
      (bytes "QK2")
      (bytes "0722")
      (process_payment_success env purchase
        (bytes "QRY_" ++ bytes "ws_2")
        (bytes "0722")
        start).1).1
    ≡ (process_payment_success env purchase
        (bytes "QRY_" ++ bytes "ws_2")
        (bytes "0722")
        (process_payment_success env purchase (bytes "QK2") (bytes "0722") start).1).1
unfolding text_eq to_upper
answers_commute_example =
    answers_commute env env purchase 6 (bytes "ws_2") (bytes "QK2") (bytes "0722") start refl refl
      refl refl refl refl

-- The purchase registers the payer, with the device and an action for the router.
purchase_granted :
    map
      (λ (c : Customer). c.name)
      (process_payment_success env purchase (bytes "QK2") (bytes "0722") start).1.base.customers
    ≡ bytes "Amina" ∷ bytes "Customer 0722" ∷ []
unfolding process_payment_success deliver grant prepare_voucher notify_router enqueue_router_action
    resolve_customer own_customer customer_by_phone_for_zone same_isp register_customer link_device
    subscribe better_name collection_channel is_production direct text_eq to_upper trim_space
purchase_granted = refl

abbrev later : StkEnv
later = record env { now = 1900 * second }

reconcile_closes_example :
    NoneWaits 7 (reconcile_pending_stk ops later (λ j. (later, daraja)) start).payments
unfolding text_eq
reconcile_closes_example =
    reconcile_closes ops later (λ j. (later, daraja)) [] (purchase ∷ []) (push 7 (pos 5000)) start
      refl refl (λ j. refl) (λ j. refl) refl refl

abbrev owed : RouterAction
owed = action_for purchase ActionKind.whitelist_mac

abbrev queued : StkState
queued = record start { actions = record owed { id = 1; attempts = 0; status = waiting } ∷ [] }

-- The job looks twice, a second apart; the second time the action is not due.
abbrev looks : List QueueCall
looks =
    run_due later (λ k. (later, none))
    ∷ run_due (record later { now = 1901 * second }) (λ k. (later, none))
    ∷ []

work_off-UsesTries_example :
    UsesTries 1
      (record owed { id = 1; attempts = 0; status = waiting })
      (tries_in_all 1 looks queued)
      (work_off looks queued)
work_off-UsesTries_example =
    work_off-UsesTries looks 1 (record owed { id = 1; attempts = 0; status = waiting }) queued
      (λ k. refl, (λ k. refl, tt)) (refl, refl)

-- The first attempt fails, since there is no router client.
tried_once : tries_in_all 1 looks queued ≡ 1
unfolding tries_in_all work_off tries_in tries_in_each serve_queue run_due_router_actions run_each
    requeue_stale run_router_action execute_router_action finished
tried_once = refl
