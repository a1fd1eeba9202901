-- ===== src/Mpesa/Stk/Granting.antt =====
-- What a customer gets for a payment of a package (services/mpesa.go, `ProcessPaymentSuccess`;
-- services/router_actions.go, `EnqueueRouterAction`): the voucher, the change of the router, the
-- customer's account, the device and the subscription. The SMS, the RADIUS table and the first attempt
-- at the router are left out. Where the source does not look at the error of a write, a write that fails
-- changes nothing.
use zyranet_api.Base.{
  ℕ, suc, ◌-◌, Bool, not, ◌&&◌, ◌||◌, Option, none, some, List, [], ◌∷◌, ◌++◌, ltb, leb, ◌==◌,
  if◌then◌else◌, length, find_first, find_last, update_where,
}
use zyranet_api.Int.{pos}
use zyranet_api.Text.{Text, bytes, text_eq, trim_space, to_lower, upper_byte}
use zyranet_api.Text.Cut.{drop, has_prefix, is_digit, join}
use zyranet_api.Models.{Package, Customer, CustomerStatus, VoucherStatus}
use zyranet_api.Ledger.Tx.{Db, Env, Result, ok, err}
use zyranet_api.Voucher.Generate.{generate_tx}
use zyranet_api.Utils.Phone.{format_phone}
use zyranet_api.Utils.Expiry.{calculate_expiry}
use zyranet_api.Mpesa.C2b.{ends_with}
use zyranet_api.Mpesa.C2b.Park.{Unmatched}
use zyranet_api.Mpesa.Stk.Rows.{
  StkPayment, StkState, StkEnv, CustomerDevice, RouterAction, ActionKind, ActionStatus,
  with_customers, update_payments, create_customer, update_customer, link_customer, find_voucher,
  release_voucher, link_voucher, save_action, find_device, create_device, save_device,
  find_past_name,
}
use zyranet_api.Mpesa.Stk.Payer.{customer_by_phone_for_zone, own_customer, has_customer_id}

abbrev pub has_payment_id : ℕ → StkPayment → Bool
has_payment_id id p = p.id == id

-- An action of a kind for a payment's zone.
abbrev pub action_for : StkPayment → ActionKind → RouterAction
action_for payment kind = record {
  id = 0;
  zone_id = payment.zone_id;
  payment_id = some payment.id;
  action = kind;
  customer_id = none;
  voucher_id = none;
  package_id = none;
  mac_address = [];
  status = ActionStatus.waiting;
  attempts = 0;
  next_attempt_at = 0;
  last_error = [];
  updated_at = 0;
}

-- The first letter of each word in upper case, as `strings.Title` writes an ASCII text.
abbrev pub continues_word : ℕ → Bool
continues_word c = is_digit c || leb b'a' c && leb c b'z' || leb b'A' c && leb c b'Z' || c == b'_'

abbrev pub title_from : Bool → Text → Text
title_from in_word [] = []
title_from in_word (c ∷ s) = (if in_word then c else upper_byte c) ∷ title_from (continues_word c) s

abbrev pub proper_name : Text → Text
proper_name s = title_from Bool.false (to_lower (trim_space s))

abbrev pub name_parts : Unmatched → List Text
name_parts u =
    (if text_eq u.first_name [] then [] else proper_name u.first_name ∷ [])
    ++ (if text_eq u.last_name [] then [] else proper_name u.last_name ∷ [])

-- The last nine digits of a telephone number.
abbrev pub suffix9 : Text → Text
suffix9 phone =
    let clean = format_phone phone in
    if leb 9 (length clean) then drop (length clean - 9) clean else clean

abbrev pub is_named_payer : Text → Unmatched → Bool
is_named_payer suffix u =
    (ends_with u.phone suffix || ends_with u.bill_ref_number suffix)
    && not (text_eq u.first_name [])

-- A name that nobody chose.
abbrev pub is_placeholder_name : Text → Bool
is_placeholder_name name =
    has_prefix name (bytes "Guest") || has_prefix name (bytes "Customer_") || text_eq name []

module _ (env : StkEnv) where
  unfoldable pub enqueue_router_action : RouterAction → StkState → StkState
  enqueue_router_action a s = if a.zone_id == 0 || env.fails save_action then s else record s {
    actions =
        s.actions
        ++ record a {
          id = s.next_action;
          status = ActionStatus.waiting;
          next_attempt_at = env.now;
          updated_at = env.now;
        }
          ∷ [];
    next_action = suc s.next_action;
  }

  -- A voucher that was made before the payment can be used from now on.
  abbrev pub release_prepared : ℕ → StkState → Option ℕ × StkState
  release_prepared voucher_id s =
      elim (if env.fails find_voucher
        then none
        else find_first (λ v. v.id == voucher_id) s.base.vouchers) [
          | none ↦ (none, s)
          | some v ↦ (
            some v.id,
            if env.fails release_voucher then s else record s {
              base = record s.base {
                vouchers =
                    update_where (λ r. r.id == v.id)
                      (λ r. record r { status = VoucherStatus.unused }) s.base.vouchers;
              };
            },
          )
        ]

  abbrev pub set_voucher : ℕ → ℕ → StkState → StkState
  set_voucher payment_id voucher_id s =
      if env.fails link_voucher
      then s
      else update_payments (has_payment_id payment_id)
          (λ p. record p { voucher_id = some voucher_id }) s

  -- A voucher that the generator made, or none.
  abbrev pub generated : ℕ → Result (ℕ × Db) → StkState → Option ℕ × StkState
  generated payment_id (err e) s = (none, s)
  generated payment_id (ok (voucher_id, base)) s =
      (some voucher_id, set_voucher payment_id voucher_id (record s { base = base }))

  abbrev pub generate_for : StkPayment → Package → Option Env → StkState → Option ℕ × StkState
  generate_for payment pkg none s = (none, s)
  generate_for payment pkg (some venv) s =
      generated payment.id
        (generate_tx venv 0 payment.zone_id pkg.id (bytes "single_use") (pos 1) s.base) s

  -- The voucher of a purchase, by its id.
  unfoldable pub prepare_voucher : StkPayment → Package → StkState → Option ℕ × StkState
  prepare_voucher payment pkg s = elim payment.voucher_id [
    | some voucher_id ↦ release_prepared voucher_id s
    | none ↦ elim payment.customer_id [
      | some id ↦ (none, s)
      | none ↦ generate_for payment pkg env.vouchers s
    ]
  ]

  unfoldable pub notify_router : StkPayment → Package → Option ℕ → StkState → StkState
  notify_router payment pkg voucher s =
      if not (text_eq payment.mac_address [])
      then enqueue_router_action
          (record (action_for payment ActionKind.whitelist_mac) {
            package_id = some pkg.id;
            mac_address = payment.mac_address;
          })
          s
      else elim voucher [
        | none ↦ s
        | some voucher_id ↦
            enqueue_router_action
              (record (action_for payment ActionKind.push_voucher) { voucher_id = some voucher_id })
              s
      ]

  abbrev pub link_payer : ℕ → ℕ → StkState → StkState
  link_payer payment_id customer_id s =
      if env.fails link_customer
      then s
      else update_payments (has_payment_id payment_id)
          (λ p. record p { customer_id = some customer_id }) s

  abbrev pub text_or_none : Text → Option Text
  text_or_none mac = if text_eq mac [] then none else some mac

  abbrev pub new_customer : StkPayment → Package → Text → ℕ → Customer
  new_customer payment pkg phone id = record {
    id = id;
    name = bytes "Customer " ++ drop (length phone - 4) phone;
    phone = phone;
    zone_id = payment.zone_id;
    package_id = pkg.id;
    kind = bytes "hotspot";
    status = CustomerStatus.active;
    expires_at = none;
    pppoe_username = some (bytes "user_" ++ drop (length phone - 6) phone);
    mac_address = text_or_none payment.mac_address;
    credit_balance = pos 0;
  }

  abbrev pub insert_customer : Customer → StkState → StkState
  insert_customer c s = record s {
    base = record s.base {
      customers = s.base.customers ++ c ∷ [];
      next_customer = suc s.base.next_customer;
    };
  }

  unfoldable pub register_customer :
      StkPayment → Package → Text → StkState → Option Customer × StkState
  register_customer payment pkg phone s =
      let c =
        new_customer payment pkg (if text_eq phone [] then payment.phone else phone)
          s.base.next_customer in
      if env.fails create_customer
      then (none, s)
      else (some c, link_payer payment.id c.id (insert_customer c s))

  -- The customer of the payment: the one it was made for, one with the telephone number that paid, or a
  -- new one.
  unfoldable pub resolve_customer :
      StkPayment → Package → Text → StkState → Option Customer × StkState
  resolve_customer payment pkg phone s = elim (own_customer env payment s) [
    | some c ↦ (some c, s)
    | none ↦ elim (customer_by_phone_for_zone env 0 payment.zone_id phone s) [
      | some c ↦ (some c, link_payer payment.id c.id s)
      | none ↦ register_customer payment pkg phone s
    ]
  ]

  abbrev pub is_device_of : ℕ → Text → CustomerDevice → Bool
  is_device_of customer_id mac d = d.customer_id == customer_id && text_eq d.mac_address mac

  abbrev pub seen_now : Text → CustomerDevice → CustomerDevice
  seen_now ip d = record d {
    last_seen_at = env.now;
    ip_address = if text_eq ip [] then d.ip_address else some ip;
  }

  abbrev pub new_device : StkPayment → ℕ → ℕ → CustomerDevice
  new_device payment customer_id id = record {
    id = id;
    customer_id = customer_id;
    mac_address = payment.mac_address;
    ip_address = text_or_none payment.ip_address;
    last_seen_at = env.now;
  }

  unfoldable pub link_device : StkPayment → ℕ → StkState → StkState
  link_device payment customer_id s =
      if text_eq payment.mac_address []
      then s
      else elim (if env.fails find_device
          then none
          else find_first (is_device_of customer_id payment.mac_address) s.devices) [
            | none ↦ if env.fails create_device then s else record s {
              devices = s.devices ++ new_device payment customer_id s.next_device ∷ [];
              next_device = suc s.next_device;
            }
            | some d ↦ if env.fails save_device then s else record s {
              devices =
                  update_where (λ r. r.id == d.id) (λ r. seen_now payment.ip_address d) s.devices;
            }
          ]

  -- The name that a paybill payment of the same telephone number carried, where the customer has none.
  unfoldable pub better_name : Text → Text → StkState → Option Text
  better_name phone name s =
      if not (is_placeholder_name name) || env.fails find_past_name
      then none
      else elim (find_last (is_named_payer (suffix9 phone)) s.unmatched) [
        | none ↦ none
        | some u ↦
            if text_eq (join (bytes " ") (name_parts u)) []
            then none
            else some (join (bytes " ") (name_parts u))
      ]

  abbrev pub takes_phone : Text → Text → Bool
  takes_phone phone old =
      not (text_eq phone []) && (text_eq old [] || has_prefix old (bytes "GUEST"))

  -- `c` is the customer as read, `r` the row that is written. Columns that are not set keep the row's
  -- values.
  abbrev pub subscribed : StkPayment → Package → Text → StkState → Customer → Customer → Customer
  subscribed payment pkg phone s c r = record r {
    status = CustomerStatus.active;
    package_id = pkg.id;
    expires_at = some (
        calculate_expiry env.add_month env.now pkg.billing_cycle c.expires_at
          pkg.time_limit_minutes);
    mac_address =
        if text_eq payment.mac_address [] then r.mac_address else some payment.mac_address;
    zone_id =
        if ltb 0 payment.zone_id
        then payment.zone_id
        else if ltb 0 pkg.zone_id
        then pkg.zone_id
        else r.zone_id;
    phone = if takes_phone phone c.phone then phone else r.phone;
    name = elim (better_name phone c.name s) [ none ↦ r.name | some name ↦ name ];
  }

  unfoldable pub subscribe : StkPayment → Package → Text → Customer → StkState → StkState
  subscribe payment pkg phone c s =
      if env.fails update_customer
      then s
      else with_customers (update_where (has_customer_id c.id) (subscribed payment pkg phone s c)) s

  abbrev pub serve_customer : StkPayment → Package → Text → Option Customer × StkState → StkState
  serve_customer payment pkg phone (none, s) = s
  serve_customer payment pkg phone (some c, s) =
      subscribe payment pkg phone c (link_device payment c.id s)

  -- A package that has been paid for.
  unfoldable pub grant : StkPayment → Package → Text → StkState → StkState
  grant payment pkg phone s =
      let (voucher, s₁) = prepare_voucher payment pkg s in
      serve_customer payment pkg phone
        (resolve_customer payment pkg phone (notify_router payment pkg voucher s₁))
