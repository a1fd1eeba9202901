-- ===== src/Mpesa/Stk/Payer.antt =====
-- Credit balances (services/credit.go) and the customer a payment belongs to (services/tenant_scope.go,
-- `payerFor` of services/mpesa.go). Rows of customers that are deleted are not in the table.
use zyranet_api.Base.{
  ℕ, suc, Bool, false, not, ◌&&◌, ◌||◌, Option, none, some, List, [], ◌∷◌, ◌==◌, if◌then◌else◌,
  find_first, count_where, update_where, exists_where,
}
use zyranet_api.Int.{ℤ, pos, leb_ℤ, ◌+ℤ◌, ◌-ℤ◌}
use zyranet_api.Text.{Text, text_eq, trim_space}
use zyranet_api.Models.{Zone, Customer}
use zyranet_api.Mpesa.Stk.Rows.{
  StkPayment, StkState, StkEnv, find_customer, count_customer, find_by_phone,
}

abbrev pub has_customer_id : ℕ → Customer → Bool
has_customer_id id c = c.id == id

abbrev pub covers : ℤ → Customer → Bool
covers needed c = leb_ℤ needed c.credit_balance

abbrev pub credit_by : ℤ → Customer → Customer
credit_by delta c = record c { credit_balance = c.credit_balance +ℤ delta }

abbrev pub debit_by : ℤ → Customer → Customer
debit_by needed c = record c { credit_balance = c.credit_balance -ℤ needed }

-- Whether one row was changed, and the customers after the update.
unfoldable pub adjust_credit : ℕ → ℤ → List Customer → Bool × List Customer
adjust_credit id delta cs =
    if leb_ℤ (pos 0) delta
    then (
      count_where (has_customer_id id) cs == 1,
      update_where (has_customer_id id) (credit_by delta) cs,
    )
    else (
      count_where (λ c. c.id == id && covers (pos 0 -ℤ delta) c) cs == 1,
      update_where (λ c. c.id == id && covers (pos 0 -ℤ delta) c) (debit_by (pos 0 -ℤ delta)) cs,
    )

abbrev pub org_of_zone : ℕ → List Zone → Option ℕ
org_of_zone zone_id zones = elim (find_first (λ z. z.id == zone_id) zones) [
  | none ↦ none
  | some z ↦ some z.org_id
]

-- Whether the zone numbered `other` belongs to the ISP that owns the zone numbered `zone_id`.
unfoldable pub same_isp : ℕ → List Zone → ℕ → Bool
same_isp zone_id zones other = elim (org_of_zone zone_id zones) [
  | none ↦ false
  | some org_id ↦ exists_where (λ z. z.id == other && z.org_id == org_id) zones
]

module _ (env : StkEnv) where
  unfoldable pub customer_by_phone_for_zone : ℕ → ℕ → Text → StkState → Option Customer
  customer_by_phone_for_zone attempt zone_id phone s =
      if text_eq (trim_space phone) [] || zone_id == 0 || env.fails (find_by_phone attempt)
      then none
      else find_first
          (λ c. text_eq c.phone (trim_space phone) && same_isp zone_id s.base.zones c.zone_id)
          s.base.customers

  -- A count that fails reads as zero.
  unfoldable pub customer_belongs_to_zone_isp : ℕ → ℕ → StkState → Bool
  customer_belongs_to_zone_isp customer_id zone_id s =
      not (env.fails count_customer)
      && exists_where (λ c. c.id == customer_id && same_isp zone_id s.base.zones c.zone_id)
          s.base.customers

  abbrev pub customer_by_id : ℕ → StkState → Option Customer
  customer_by_id id s =
      if env.fails find_customer then none else find_first (has_customer_id id) s.base.customers

  -- The customer that the payment was made for, if that is one of the zone's ISP.
  unfoldable pub own_customer : StkPayment → StkState → Option Customer
  own_customer payment s = elim payment.customer_id [
    | none ↦ none
    | some id ↦ elim (customer_by_id id s) [
      | none ↦ none
      | some c ↦ if customer_belongs_to_zone_isp c.id payment.zone_id s then some c else none
    ]
  ]

  abbrev pub first_by_phone : ℕ → ℕ → List Text → StkState → Option Customer
  first_by_phone attempt zone_id [] s = none
  first_by_phone attempt zone_id (phone ∷ phones) s =
      let later = first_by_phone (suc attempt) zone_id phones s in
      if text_eq phone []
      then later
      else elim (customer_by_phone_for_zone attempt zone_id phone s) [
        | none ↦ later
        | some c ↦ some c
      ]

  unfoldable pub payer_for : StkPayment → Text → StkState → Option Customer
  payer_for payment phone s = elim (own_customer payment s) [
    | some c ↦ some c
    | none ↦ first_by_phone 0 payment.zone_id (phone ∷ payment.phone ∷ []) s
  ]
