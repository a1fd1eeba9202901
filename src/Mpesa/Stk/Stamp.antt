-- ===== src/Mpesa/Stk/Stamp.antt =====
-- The receipt of a payment plays no part in what is granted for it (services/mpesa.go,
-- `ProcessPaymentSuccess`): to write another receipt before or after comes to the same.
use zyranet_api.Base.{
  ℕ, ◌≡◌, refl, ap, ◌∙◌, Bool, ◌||◌, Option, none, some, List, [], ◌∷◌, ◌==◌, if◌then◌else◌, arith,
  Bool-cases, Option-cases, inl, inr, update_where,
}
use zyranet_api.Text.{Text, text_eq}
use zyranet_api.Models.{Package, Customer}
use zyranet_api.Ledger.Tx.{Db, Result, ok, err}
use zyranet_api.Mpesa.Stk.Rows.{
  StkPayment, StkState, StkEnv, RouterAction, update_payments, link_customer, link_voucher,
  create_customer, update_customer, save_action,
}
use zyranet_api.Mpesa.Stk.Payer.{
  own_customer, customer_by_phone_for_zone, customer_belongs_to_zone_isp,
}
use zyranet_api.Mpesa.Stk.Granting.{
  enqueue_router_action, new_customer, insert_customer, has_payment_id, prepare_voucher,
  release_prepared, generated, notify_router, link_payer, set_voucher, register_customer,
  resolve_customer, link_device, subscribe, serve_customer, grant, better_name,
}

-- Two updates commute where neither changes what the other tests or writes.
update_where_commute :
    (t u : StkPayment → Bool) (f g : StkPayment → StkPayment)
    → ((p : StkPayment) → t (g p) ≡ t p)
    → ((p : StkPayment) → u (f p) ≡ u p)
    → ((p : StkPayment) → f (g p) ≡ g (f p))
    → (ps : List StkPayment)
    → update_where t f (update_where u g ps) ≡ update_where u g (update_where t f ps)
update_where_commute t u f g tg uf fg [] = refl
update_where_commute t u f g tg uf fg (p ∷ ps) =
    ground (arith, tg p, uf p, fg p, update_where_commute t u f g tg uf fg ps)

abbrev pub stamp : ℕ → Text → StkState → StkState
stamp id receipt s = update_payments (has_payment_id id) (λ p. record p { receipt = receipt }) s

abbrev pub stamp_second : {A : Type 0} → ℕ → Text → A × StkState → A × StkState
stamp_second id receipt r = (r.0, stamp id receipt r.1)

module _ (env : StkEnv) (id : ℕ) (receipt : Text) where
  link_payer-stamp :
      (payment_id customer_id : ℕ) (s : StkState)
      → link_payer env payment_id customer_id (stamp id receipt s)
        ≡ stamp id receipt (link_payer env payment_id customer_id s)
  link_payer-stamp payment_id customer_id s = elim (Bool-cases (env.fails link_customer)) [
    | inl failing ↦ rw failing refl
    | inr works ↦ rw works (
        ap (λ ps. record s { payments = ps })
          (update_where_commute (has_payment_id payment_id) (has_payment_id id)
            (λ p. record p { customer_id = some customer_id }) (λ p. record p { receipt = receipt })
            (λ p. refl) (λ p. refl) (λ p. refl) s.payments))
  ]

  set_voucher-stamp :
      (payment_id voucher_id : ℕ) (s : StkState)
      → set_voucher env payment_id voucher_id (stamp id receipt s)
        ≡ stamp id receipt (set_voucher env payment_id voucher_id s)
  set_voucher-stamp payment_id voucher_id s = elim (Bool-cases (env.fails link_voucher)) [
    | inl failing ↦ rw failing refl
    | inr works ↦ rw works (
        ap (λ ps. record s { payments = ps })
          (update_where_commute (has_payment_id payment_id) (has_payment_id id)
            (λ p. record p { voucher_id = some voucher_id }) (λ p. record p { receipt = receipt })
            (λ p. refl) (λ p. refl) (λ p. refl) s.payments))
  ]

  enqueue-stamp :
      (a : RouterAction) (s : StkState)
      → enqueue_router_action env a (stamp id receipt s)
        ≡ stamp id receipt (enqueue_router_action env a s)
  unfolding enqueue_router_action
  enqueue-stamp a s = elim (Bool-cases (a.zone_id == 0 || env.fails save_action)) [
    | inl dropped ↦ rw dropped refl
    | inr kept ↦ rw kept refl
  ]

  release_prepared-stamp :
      (voucher_id : ℕ) (s : StkState)
      → release_prepared env voucher_id (stamp id receipt s)
        ≡ stamp_second id receipt (release_prepared env voucher_id s)
  release_prepared-stamp voucher_id s = ground arith

  generated-stamp :
      (payment_id : ℕ) (r : Result (ℕ × Db)) (s : StkState)
      → generated env payment_id r (stamp id receipt s)
        ≡ stamp_second id receipt (generated env payment_id r s)
  generated-stamp payment_id (err e) s = refl
  generated-stamp payment_id (ok (voucher_id, base)) s =
      ap (λ t. (some voucher_id, t))
        (set_voucher-stamp payment_id voucher_id (record s { base = base }))

  prepare_voucher-stamp :
      (payment : StkPayment) (pkg : Package) (s : StkState)
      → prepare_voucher env payment pkg (stamp id receipt s)
        ≡ stamp_second id receipt (prepare_voucher env payment pkg s)
  unfolding prepare_voucher
  prepare_voucher-stamp payment pkg s = elim (Option-cases payment.voucher_id) [
    | inr (voucher_id, given) ↦ rw given (release_prepared-stamp voucher_id s)
    | inl anonymous ↦ rw anonymous (elim (Option-cases payment.customer_id) [
      | inr (customer_id, known) ↦ rw known refl
      | inl unknown ↦ rw unknown (elim (Option-cases env.vouchers) [
        | inl unset ↦ rw unset refl
        | inr (venv, set) ↦ rw set (generated-stamp payment.id _ s)
      ])
    ])
  ]

  notify_router-stamp :
      (payment : StkPayment) (pkg : Package) (voucher : Option ℕ) (s : StkState)
      → notify_router env payment pkg voucher (stamp id receipt s)
        ≡ stamp id receipt (notify_router env payment pkg voucher s)
  unfolding notify_router
  notify_router-stamp payment pkg voucher s = elim (Bool-cases (text_eq payment.mac_address [])) [
    | inr known ↦ rw known (enqueue-stamp _ s)
    | inl unknown ↦ rw unknown (elim (Option-cases voucher) [
      | inl no_voucher ↦ rw no_voucher refl
      | inr (voucher_id, made) ↦ rw made (enqueue-stamp _ s)
    ])
  ]

  register_customer-stamp :
      (payment : StkPayment) (pkg : Package) (phone : Text) (s : StkState)
      → register_customer env payment pkg phone (stamp id receipt s)
        ≡ stamp_second id receipt (register_customer env payment pkg phone s)
  unfolding register_customer
  register_customer-stamp payment pkg phone s =
      let c =
        new_customer env payment pkg (if text_eq phone [] then payment.phone else phone)
          s.base.next_customer in
      elim (Bool-cases (env.fails create_customer)) [
        | inl failing ↦ rw failing refl
        | inr works ↦
            rw works
              (ap (λ t. (some c, t)) (link_payer-stamp payment.id c.id (insert_customer env c s)))
      ]

  -- The lookups of a customer read no payment.
  lookups-stamp :
      (payment : StkPayment) (phone : Text) (s : StkState)
      → (own_customer env payment (stamp id receipt s) ≡ own_customer env payment s)
        × (customer_by_phone_for_zone env 0 payment.zone_id phone (stamp id receipt s)
            ≡ customer_by_phone_for_zone env 0 payment.zone_id phone s)
  unfolding own_customer customer_by_phone_for_zone customer_belongs_to_zone_isp
  lookups-stamp payment phone s = (refl, refl)

  resolve_customer-stamp :
      (payment : StkPayment) (pkg : Package) (phone : Text) (s : StkState)
      → resolve_customer env payment pkg phone (stamp id receipt s)
        ≡ stamp_second id receipt (resolve_customer env payment pkg phone s)
  unfolding resolve_customer
  resolve_customer-stamp payment pkg phone s =
      let same = lookups-stamp payment phone s in
      elim (Option-cases (own_customer env payment s)) [
        | inr (c, own) ↦ rw (resolve_customer, same.0, own) refl
        | inl other ↦
            rw (resolve_customer, same.0, other)
              (elim (Option-cases (customer_by_phone_for_zone env 0 payment.zone_id phone s)) [
                | inr (c, found) ↦
                    rw (same.1, found) (ap (λ t. (some c, t)) (link_payer-stamp payment.id c.id s))
                | inl unknown ↦ rw (same.1, unknown) (register_customer-stamp payment pkg phone s)
              ])
      ]

  link_device-stamp :
      (payment : StkPayment) (customer_id : ℕ) (s : StkState)
      → link_device env payment customer_id (stamp id receipt s)
        ≡ stamp id receipt (link_device env payment customer_id s)
  unfolding link_device
  link_device-stamp payment customer_id s = ground arith

  subscribe-stamp :
      (payment : StkPayment) (pkg : Package) (phone : Text) (c : Customer) (s : StkState)
      → subscribe env payment pkg phone c (stamp id receipt s)
        ≡ stamp id receipt (subscribe env payment pkg phone c s)
  unfolding subscribe better_name
  subscribe-stamp payment pkg phone c s = elim (Bool-cases (env.fails update_customer)) [
    | inl failing ↦ rw failing refl
    | inr works ↦ rw works refl
  ]

  serve_customer-stamp :
      (payment : StkPayment) (pkg : Package) (phone : Text) (r : Option Customer × StkState)
      → serve_customer env payment pkg phone (stamp_second id receipt r)
        ≡ stamp id receipt (serve_customer env payment pkg phone r)
  serve_customer-stamp payment pkg phone (none, s) = refl
  serve_customer-stamp payment pkg phone (some c, s) =
      ap (subscribe env payment pkg phone c) (link_device-stamp payment c.id s)
      ∙ subscribe-stamp payment pkg phone c (link_device env payment c.id s)

  pub grant-stamp :
      (payment : StkPayment) (pkg : Package) (phone : Text) (s : StkState)
      → grant env payment pkg phone (stamp id receipt s)
        ≡ stamp id receipt (grant env payment pkg phone s)
  unfolding grant
  grant-stamp payment pkg phone s =
      let made = prepare_voucher env payment pkg s in
      let told = notify_router env payment pkg made.0 made.1 in
      ap
        (λ (r : Option ℕ × StkState).
          serve_customer env payment pkg phone
            (resolve_customer env payment pkg phone (notify_router env payment pkg r.0 r.1)))
        (prepare_voucher-stamp payment pkg s)
      ∙ ap (λ t. serve_customer env payment pkg phone (resolve_customer env payment pkg phone t))
          (notify_router-stamp payment pkg made.0 made.1)
      ∙ ap (serve_customer env payment pkg phone) (resolve_customer-stamp payment pkg phone told)
      ∙ serve_customer-stamp payment pkg phone (resolve_customer env payment pkg phone told)
