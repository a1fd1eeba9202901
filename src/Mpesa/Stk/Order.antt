-- ===== src/Mpesa/Stk/Order.antt =====
-- The order in which Safaricom's callback and the answer to a status query come
-- (services/mpesa.go: `HandleCallback`, `QueryAndUpdateSTKStatus`, `upgradePlaceholderReceipt`).
use zyranet_api.Base.{
  ℕ, ◌≡◌, refl, sym, ap, ◌∙◌, Bool, true, false, not, ◌&&◌, ◌||◌, some, List, [], ◌∷◌, ◌++◌, ◌==◌,
  arith, Option-cases, inl, inr, count_where, update_where, subst,
}
use zyranet_api.Text.{Text, bytes, text_eq, to_upper}
use zyranet_api.Text.Cut.{has_prefix}
use zyranet_api.Mpesa.Creds.{Creds}
use zyranet_api.Mpesa.Routes.{Channel, collection_channel}
use zyranet_api.Mpesa.Stk.Rows.{
  StkPayment, StkState, StkEnv, complete_payment, upgrade_receipt, update_payments,
}
use zyranet_api.Mpesa.Stk.Granting.{has_payment_id}
use zyranet_api.Mpesa.Stk.Success.{
  placeholder, is_completed, is_unfinished, is_upgradable, completed_row, via_of, deliver,
  deliver_package, grant_found, package_by_id, process_payment_success, upgrade_placeholder_receipt,
}
use zyranet_api.Mpesa.Stk.Once.{IsSettled, success-IsSettled, settled_success}
use zyranet_api.Mpesa.Stk.Stamp.{stamp, grant-stamp}

-- No row with this id is completed.
abbrev pub IsUnpaid : ℕ → List StkPayment → Type 0
IsUnpaid id ps = count_where (λ p. p.id == id && is_completed p.status) ps ≡ 0

-- A receipt that Safaricom gives: not empty, no placeholder and no mock.
abbrev pub is_real_receipt : Text → Bool
is_real_receipt r =
    not (text_eq r [])
    && not (has_prefix r placeholder)
    && not (has_prefix (to_upper r) (bytes "MOCK"))

same_channel :
    (c : Creds) (checkout receipt : Text)
    → is_real_receipt receipt ≡ true
    → collection_channel c receipt ≡ collection_channel c (placeholder ++ checkout)
unfolding collection_channel to_upper
same_channel c checkout receipt real = ground arith

marked_rows :
    (id : ℕ) (r q : Text) (via : Channel) (ps : List StkPayment)
    → IsUnpaid id ps
    → update_where (is_unfinished id) (completed_row r via) ps
      ≡ update_where
          (has_payment_id id)
          (λ p. record p { receipt = r })
          (update_where (is_unfinished id) (completed_row q via) ps)
marked_rows id r q via [] h = refl
marked_rows id r q via (p ∷ ps) h = ground (arith, marked_rows id r q via ps)

-- Rows that bear a placeholder are upgraded.
upgraded_rows :
    (id : ℕ) (checkout r : Text) (ps : List StkPayment)
    → IsSettled id
        (update_where (has_payment_id id) (λ p. record p { receipt = placeholder ++ checkout }) ps)
    → update_where
        (is_upgradable id)
        (λ p. record p { receipt = r })
        (update_where (has_payment_id id) (λ p. record p { receipt = placeholder ++ checkout }) ps)
      ≡ update_where
          (has_payment_id id)
          (λ p. record p { receipt = r })
          (update_where
            (has_payment_id id)
            (λ p. record p { receipt = placeholder ++ checkout })
            ps)
unfolding to_upper
upgraded_rows id checkout r [] h = refl
upgraded_rows id checkout r (p ∷ ps) h = ground (arith, upgraded_rows id checkout r ps)

module _ (env : StkEnv) (payment : StkPayment) (package_id : ℕ) (phone : Text) where
  -- What a purchase comes to, once its row is marked.
  abbrev delivered : StkState → StkState
  delivered s = grant_found env payment phone (package_by_id env package_id s) s

  delivered-stamp :
      (receipt : Text) (s : StkState)
      → delivered (stamp payment.id receipt s) ≡ stamp payment.id receipt (delivered s)
  delivered-stamp receipt s = elim (Option-cases (package_by_id env package_id s)) [
    | inl gone ↦ rw gone refl
    | inr (pkg, found) ↦ rw found (grant-stamp env payment.id receipt payment pkg phone s)
  ]

  abbrev marked : Text → Channel → StkState → StkState
  marked receipt via s = update_payments (is_unfinished payment.id) (completed_row receipt via) s

  first_success :
      (receipt : Text) (s : StkState)
      → payment.package_id ≡ some package_id
      → env.fails complete_payment ≡ false
      → (count_where (is_unfinished payment.id) s.payments == 0) ≡ false
      → (process_payment_success env payment receipt phone s).1
        ≡ delivered (marked receipt (via_of env payment receipt) s)
  unfolding process_payment_success deliver
  first_success receipt s bought works waits =
      rw (works, waits)
        (ap
          (λ o.
            (deliver_package env o payment receipt phone
              (marked receipt (via_of env payment receipt) s)).1)
          bought)

  marked-stamp :
      (r q : Text) (via : Channel) (s : StkState)
      → IsUnpaid payment.id s.payments
      → marked r via s ≡ stamp payment.id r (marked q via s)
  marked-stamp r q via s unpaid =
      ap (λ ps. record s { payments = ps }) (marked_rows payment.id r q via s.payments unpaid)

upgrade_stamped :
    (env : StkEnv) (id : ℕ) (checkout receipt : Text) (s : StkState)
    → env.fails upgrade_receipt ≡ false
    → is_real_receipt receipt ≡ true
    → IsSettled id (stamp id (placeholder ++ checkout) s).payments
    → upgrade_placeholder_receipt env id receipt (stamp id (placeholder ++ checkout) s)
      ≡ stamp id receipt (stamp id (placeholder ++ checkout) s)
unfolding upgrade_placeholder_receipt
upgrade_stamped env id checkout receipt s works real settled =
    let skips : (text_eq receipt [] || has_prefix receipt placeholder || env.fails upgrade_receipt)
        ≡ false =
      ground arith in
    rw skips
      (ap (λ ps. record s { payments = ps }) (upgraded_rows id checkout receipt s.payments settled))

upgrade_placeholder :
    (env : StkEnv) (id : ℕ) (checkout : Text) (s : StkState)
    → upgrade_placeholder_receipt env id (placeholder ++ checkout) s ≡ s
unfolding upgrade_placeholder_receipt text_eq
upgrade_placeholder env id checkout s = refl

-- A purchase that waits, told completed both by a status query (which knows no receipt and writes a
-- placeholder) and by a callback with Safaricom's receipt, for the same telephone number, the updates of
-- the payment's row going through: whichever comes first, and in whatever environment the second comes,
-- the tables are the same in the end.
pub answers_commute :
    (env env' : StkEnv) (payment : StkPayment) (package_id : ℕ) (checkout receipt phone : Text)
    (s : StkState)
    → payment.package_id ≡ some package_id
    → env.fails complete_payment ≡ false
    → env'.fails upgrade_receipt ≡ false
    → is_real_receipt receipt ≡ true
    → IsUnpaid payment.id s.payments
    → (count_where (is_unfinished payment.id) s.payments == 0) ≡ false
    → (process_payment_success env' payment receipt phone
        (process_payment_success env payment (placeholder ++ checkout) phone s).1).1
      ≡ (process_payment_success env' payment
          (placeholder ++ checkout)
          phone
          (process_payment_success env payment receipt phone s).1).1
answers_commute env env' payment package_id checkout receipt phone s bought works upgrades real
      unpaid waits =
    let q = placeholder ++ checkout in
    let via = via_of env payment q in
    let same : via_of env payment receipt ≡ via =
      same_channel (env.creds payment.zone_id) checkout receipt real in
    let queried =
      delivered env payment package_id phone (marked env payment package_id phone q via s) in
    let called =
      delivered env payment package_id phone (marked env payment package_id phone receipt via s) in
    let by_query : (process_payment_success env payment q phone s).1 ≡ queried =
      first_success env payment package_id phone q s bought works waits in
    let by_call : (process_payment_success env payment receipt phone s).1 ≡ called =
      first_success env payment package_id phone receipt s bought works waits
      ∙ ap
          (λ v.
            delivered env payment package_id phone
              (marked env payment package_id phone receipt v s))
          same in
    let stamped : queried ≡ stamp payment.id q queried =
      ap (delivered env payment package_id phone)
        (marked-stamp env payment package_id phone q q via s unpaid)
      ∙ delivered-stamp env payment package_id phone q _ in
    let restamped : called ≡ stamp payment.id receipt queried =
      ap (delivered env payment package_id phone)
        (marked-stamp env payment package_id phone receipt q via s unpaid)
      ∙ delivered-stamp env payment package_id phone receipt _ in
    let settled : IsSettled payment.id queried.payments =
      subst (λ (t : StkState). IsSettled payment.id t.payments) by_query
        (success-IsSettled env payment q phone s works) in
    let settled' : IsSettled payment.id called.payments =
      subst (λ (t : StkState). IsSettled payment.id t.payments) by_call
        (success-IsSettled env payment receipt phone s works) in
    let left : upgrade_placeholder_receipt env' payment.id receipt queried
        ≡ stamp payment.id receipt queried =
      ap (upgrade_placeholder_receipt env' payment.id receipt) stamped
      ∙ upgrade_stamped env' payment.id checkout receipt queried upgrades real
          (subst (λ (t : StkState). IsSettled payment.id t.payments) stamped settled)
      ∙ ap (stamp payment.id receipt) (sym stamped) in
    ap (λ t. (process_payment_success env' payment receipt phone t).1) by_query
    ∙ ap (λ r. r.1) (settled_success env' payment receipt phone queried settled)
    ∙ left
    ∙ sym restamped
    ∙ sym (upgrade_placeholder env' payment.id checkout called)
    ∙ sym (ap (λ r. r.1) (settled_success env' payment q phone called settled'))
    ∙ sym (ap (λ t. (process_payment_success env' payment q phone t).1) by_call)
