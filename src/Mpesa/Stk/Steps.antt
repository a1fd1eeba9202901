-- ===== src/Mpesa/Stk/Steps.antt =====
-- The steps by which a purchase is granted (services/mpesa.go, `ProcessPaymentSuccess`) settle no
-- payment and move no balance.
use zyranet_api.Base.{
  ℕ, ◌≡◌, refl, Option, none, some, ◌==◌, if◌then◌else◌, arith, Bool-cases, Option-cases, inl, inr,
  [], find_first,
}
use zyranet_api.Text.{Text, text_eq}
use zyranet_api.Models.{Package, Customer, Voucher}
use zyranet_api.Ledger.Tx.{Db, Env, Result, ok, err}
use zyranet_api.Voucher.Generate.{generate_tx, unique_code}
use zyranet_api.Mpesa.Stk.Rows.{
  StkPayment, StkState, StkEnv, RouterAction, update_payments, find_voucher, link_customer,
  link_voucher, create_customer, update_customer, find_device,
}
use zyranet_api.Mpesa.Stk.Payer.{own_customer, customer_by_phone_for_zone, has_customer_id}
use zyranet_api.Mpesa.Stk.Granting.{
  enqueue_router_action, has_payment_id, prepare_voucher, release_prepared, generated,
  notify_router, link_payer, set_voucher, register_customer, resolve_customer, link_device,
  subscribe, subscribed, serve_customer, grant, is_device_of,
}
use zyranet_api.Mpesa.Stk.Evolves.{
  Evolves, Evolves-refl, Evolves-trans, Evolves-unlogged, Kept-refl, Kept-update_where, Moved-refl,
  Moved-append, Moved-update_where,
}

-- A voucher is generated without a change of customers.
generate_tx-customers :
    (venv : Env) (i zone_id package_id : ℕ) (kind : Text) (limit : _) (db db' : Db) (id : ℕ)
    → generate_tx venv i zone_id package_id kind limit db ≡ ok (id, db')
    → db'.customers ≡ db.customers
unfolding generate_tx
generate_tx-customers venv i zone_id package_id kind limit db db' id h =
    elim (Option-cases (unique_code venv i db.vouchers 20 0)) [
      | inl gone ↦ ground arith
      | inr (code, found) ↦ ground arith
    ]

module _ (env : StkEnv) where
  links-Evolves :
      (s : StkState) (id : ℕ) (f : StkPayment → StkPayment)
      → ((p : StkPayment)
          → (f p ≡ record p { customer_id = (f p).customer_id; voucher_id = (f p).voucher_id }))
      → Evolves s (update_payments (has_payment_id id) f s)
  links-Evolves s id f same =
      Evolves-unlogged
        (Kept-update_where (has_payment_id id) f (λ p hit. rw (same p) (refl, inl (refl, inl refl)))
          s.payments)
        refl (Moved-refl s.base.customers)

  pub link_payer-Evolves :
      (payment_id customer_id : ℕ) (s : StkState)
      → Evolves s (link_payer env payment_id customer_id s)
  link_payer-Evolves payment_id customer_id s = elim (Bool-cases (env.fails link_customer)) [
    | inl failing ↦ rw failing (Evolves-refl s)
    | inr works ↦
        rw works (
          links-Evolves s payment_id (λ p. record p { customer_id = some customer_id }) (λ p. refl))
  ]

  set_voucher-Evolves :
      (payment_id voucher_id : ℕ) (s : StkState)
      → Evolves s (set_voucher env payment_id voucher_id s)
  set_voucher-Evolves payment_id voucher_id s = elim (Bool-cases (env.fails link_voucher)) [
    | inl failing ↦ rw failing (Evolves-refl s)
    | inr works ↦
        rw works
          (links-Evolves s payment_id (λ p. record p { voucher_id = some voucher_id }) (λ p. refl))
  ]

  -- A step that touches neither payments nor the log, and adds customers at most.
  pub aside :
      {s t : StkState}
      → t.payments ≡ s.payments
      → t.credit_logs ≡ s.credit_logs
      → t.base.customers ≡ s.base.customers
      → Evolves s t
  aside {s} {t} p l c =
      Evolves-unlogged (rw p (Kept-refl s.payments)) l (rw c (Moved-refl s.base.customers))

  enqueue-Evolves : (a : RouterAction) (s : StkState) → Evolves s (enqueue_router_action env a s)
  unfolding enqueue_router_action
  enqueue-Evolves a s = aside (ground arith) (ground arith) (ground arith)

  release_prepared-Evolves : (id : ℕ) (s : StkState) → Evolves s (release_prepared env id s).1
  release_prepared-Evolves id s =
      elim (Option-cases (
        if env.fails find_voucher
        then none
        else find_first (λ (v : Voucher). v.id == id) s.base.vouchers)) [
          | inl gone ↦ rw (release_prepared, gone) (Evolves-refl s)
          | inr (v, found) ↦
              rw (release_prepared, found) (aside (ground arith) (ground arith) (ground arith))
        ]

  generated-Evolves :
      (payment_id : ℕ) (r : Result (ℕ × Db)) (s : StkState)
      → ((id : ℕ) (db : Db) → r ≡ ok (id, db) → db.customers ≡ s.base.customers)
      → Evolves s (generated env payment_id r s).1
  generated-Evolves payment_id (err e) s same = Evolves-refl s
  generated-Evolves payment_id (ok (id, db)) s same =
      Evolves-trans (aside refl refl (same id db refl))
        (set_voucher-Evolves payment_id id (record s { base = db }))

  prepare_voucher-Evolves :
      (payment : StkPayment) (pkg : Package) (s : StkState)
      → Evolves s (prepare_voucher env payment pkg s).1
  unfolding prepare_voucher
  prepare_voucher-Evolves payment pkg s = elim (Option-cases payment.voucher_id) [
    | inr (id, given) ↦ rw given (release_prepared-Evolves id s)
    | inl anonymous ↦ rw anonymous (elim (Option-cases payment.customer_id) [
      | inr (id, known) ↦ rw known (Evolves-refl s)
      | inl unknown ↦ rw unknown (elim (Option-cases env.vouchers) [
        | inl unset ↦ rw unset (Evolves-refl s)
        | inr (venv, set) ↦ rw set (
            generated-Evolves payment.id _ s
              (λ id db h. generate_tx-customers venv 0 _ _ _ _ s.base db id h))
      ])
    ])
  ]

  notify_router-Evolves :
      (payment : StkPayment) (pkg : Package) (voucher : Option ℕ) (s : StkState)
      → Evolves s (notify_router env payment pkg voucher s)
  unfolding notify_router
  notify_router-Evolves payment pkg voucher s = elim (Bool-cases (text_eq payment.mac_address [])) [
    | inr known ↦ rw known (enqueue-Evolves _ s)
    | inl unknown ↦ rw unknown (elim (Option-cases voucher) [
      | inl no_voucher ↦ rw no_voucher (Evolves-refl s)
      | inr (id, made) ↦ rw made (enqueue-Evolves _ s)
    ])
  ]

  register_customer-Evolves :
      (payment : StkPayment) (pkg : Package) (phone : Text) (s : StkState)
      → Evolves s (register_customer env payment pkg phone s).1
  unfolding register_customer
  register_customer-Evolves payment pkg phone s = elim (Bool-cases (env.fails create_customer)) [
    | inl failing ↦ rw failing (Evolves-refl s)
    | inr works ↦ rw works (
        Evolves-trans
          (Evolves-unlogged (Kept-refl s.payments) refl (Moved-append s.base.customers _))
          (link_payer-Evolves payment.id _ _))
  ]

  resolve_customer-Evolves :
      (payment : StkPayment) (pkg : Package) (phone : Text) (s : StkState)
      → Evolves s (resolve_customer env payment pkg phone s).1
  unfolding resolve_customer
  resolve_customer-Evolves payment pkg phone s = elim (Option-cases (own_customer env payment s)) [
    | inr (c, own) ↦ rw (resolve_customer, own) (Evolves-refl s)
    | inl other ↦
        rw (resolve_customer, other)
          (elim (Option-cases (customer_by_phone_for_zone env 0 payment.zone_id phone s)) [
            | inr (c, found) ↦ rw (found) (link_payer-Evolves payment.id c.id s)
            | inl unknown ↦ rw unknown (register_customer-Evolves payment pkg phone s)
          ])
  ]

  link_device-Evolves :
      (payment : StkPayment) (id : ℕ) (s : StkState) → Evolves s (link_device env payment id s)
  unfolding link_device
  link_device-Evolves payment id s =
      elim (Option-cases (
        if env.fails find_device
        then none
        else find_first (is_device_of env id payment.mac_address) s.devices)) [
          | inl gone ↦ rw gone (aside (ground arith) (ground arith) (ground arith))
          | inr (d, found) ↦ rw found (aside (ground arith) (ground arith) (ground arith))
        ]

  subscribe-Evolves :
      (payment : StkPayment) (pkg : Package) (phone : Text) (c : Customer) (s : StkState)
      → Evolves s (subscribe env payment pkg phone c s)
  unfolding subscribe
  subscribe-Evolves payment pkg phone c s = elim (Bool-cases (env.fails update_customer)) [
    | inl failing ↦ rw failing (Evolves-refl s)
    | inr works ↦ rw works (
        Evolves-unlogged (Kept-refl s.payments) refl (
          Moved-update_where (has_customer_id c.id) (subscribed env payment pkg phone s c)
            (λ r. (refl, refl)) s.base.customers))
  ]

  serve_customer-Evolves :
      (payment : StkPayment) (pkg : Package) (phone : Text) (r : Option Customer × StkState)
      → Evolves r.1 (serve_customer env payment pkg phone r)
  serve_customer-Evolves payment pkg phone (none, s) = Evolves-refl s
  serve_customer-Evolves payment pkg phone (some c, s) =
      Evolves-trans (link_device-Evolves payment c.id s) (subscribe-Evolves payment pkg phone c _)

  pub grant-Evolves :
      (payment : StkPayment) (pkg : Package) (phone : Text) (s : StkState)
      → Evolves s (grant env payment pkg phone s)
  unfolding grant
  grant-Evolves payment pkg phone s =
      let made = prepare_voucher env payment pkg s in
      let told = notify_router env payment pkg made.0 made.1 in
      Evolves-trans (prepare_voucher-Evolves payment pkg s) (
        Evolves-trans (notify_router-Evolves payment pkg made.0 made.1) (
          Evolves-trans (resolve_customer-Evolves payment pkg phone told)
            (serve_customer-Evolves payment pkg phone _)))
