-- ===== src/Voucher/Spent.antt =====
-- A voucher that is used up is not redeemed again (services/voucher.go, `Redeem`).
use zyranet_api.Base.{
  suc, length, ltb, count_where, ◌++◌, ◌≡◌, refl, sym, true, false, Option, none, some, List, [],
  ◌∷◌, ◌==◌, if◌then◌else◌, find_first, update_where, arith, Bool-cases, Option-cases, inl, inr,
  some-injective, ==_refl, subst,
}
use zyranet_api.Int.{pos, leb_ℤ, ◌+ℤ◌}
use zyranet_api.Text.{Text, bytes, text_eq, trim_space, to_upper}
use zyranet_api.Models.{Voucher, VoucherStatus, Package, Customer}
use zyranet_api.Ledger.Tx.{Db}
use zyranet_api.Voucher.Redeem.{
  RedeemEnv, guest, renewed, update_customer, Redeemed, granted, denied, unusable, row_or_none,
  redeem, with_voucher, for_customer, use_up, voucher_by_code, spend, is_same_row, status_after,
  limit_of, mark_agent_voucher_sold, find_voucher, find_package, find_customer, is_customer_of,
  status_code, is_usable, is_past, with_package, mark_sold, update_voucher, create_customer,
}

-- What a granted redemption did to a voucher: one use more, in one conditional write.
pub record Spends (v : Voucher) (db : Db) (r : Redeemed) (db' : Db) : Type 0 where
  pub customer : Customer
  pub written : db'.vouchers ≡ update_where (is_same_row v) (spend v customer) db.vouchers
  pub answer :
      r.voucher ≡ record v { usage_count = v.usage_count +ℤ pos 1; status = status_after v }

use_up-Spends :
    (env : RedeemEnv) (v : Voucher) (p : Package) (c : Customer) (db before db' : Db) (r : Redeemed)
    → use_up env v p c db before ≡ (granted r, db')
    → db.vouchers ≡ before.vouchers
    → Spends v before r db'
unfolding mark_agent_voucher_sold
use_up-Spends env v p c db before db' r h same = record {
  customer = c;
  written = ground arith;
  answer = ground arith;
}

for_customer-Spends :
    (env : RedeemEnv) (v : Voucher) (p : Package) (phone : Text) (o : Option Customer) (db db' : Db)
    (r : Redeemed)
    → for_customer env v p phone o db ≡ (granted r, db')
    → Spends v db r db'
for_customer-Spends env v p phone none db db' r h =
    let added : Db = record db {
      customers = db.customers ++ guest env v p phone db.next_customer ∷ [];
      next_customer = suc db.next_customer;
    } in
    use_up-Spends env v p (guest env v p phone db.next_customer) added db db' r (ground arith) refl
for_customer-Spends env v p phone (some c) db db' r h =
    let touched : Db = if env.fails update_customer then db else record db {
      customers = update_where (λ r. r.id == c.id) (renewed env v p) db.customers;
    } in
    use_up-Spends env v p (renewed env v p c) touched db db' r h (ground arith)

-- A granted redemption spends the voucher that was found.
with_voucher-Spends :
    (env : RedeemEnv) (phone : Text) (o : Option Voucher) (db db' : Db) (r : Redeemed)
    → with_voucher env phone o db ≡ (granted r, db')
    → (v : Voucher) × (o ≡ some v) × Spends v db r db'
with_voucher-Spends env phone none db db' r h = absurd (ground arith)
with_voucher-Spends env phone (some v) db db' r h =
    elim (Option-cases
      (row_or_none (env.fails find_package) (find_first (λ p. p.id == v.package_id) db.packages))) [
        | inl gone ↦ absurd (ground arith)
        | inr (p, found) ↦ (
          v,
          refl,
          for_customer-Spends env v p phone
              (row_or_none (env.fails find_customer)
                (find_first (is_customer_of phone v.zone_id) db.customers))
              db db' r (ground arith),
        )
      ]

found_spent :
    (code : Text) (v : Voucher) (c : Customer) (vs : List Voucher)
    → find_first (λ x. text_eq x.code code) vs ≡ some v
    → find_first (λ x. text_eq x.code code) (update_where (is_same_row v) (spend v c) vs)
      ≡ some (spend v c v)
found_spent code v c [] h = absurd (ground arith)
found_spent code v c (x ∷ vs) h = elim (Bool-cases (text_eq x.code code)) [
  | inl hit ↦
      let this : x ≡ v = some-injective x v (ground arith) in
      let own : text_eq v.code code ≡ true = subst (λ y. text_eq y.code code ≡ true) this hit in
      subst
        (λ y.
          find_first (λ x. text_eq x.code code) (update_where (is_same_row v) (spend v c) (y ∷ vs))
          ≡ some (spend v c v))
        (sym this) (rw (==_refl v.id) (rw (==_refl (status_code v.status)) (rw own refl)))
  | inr miss ↦ ground (arith, found_spent code v c vs)
]

-- The row that a query by code finds is used up.
abbrev pub IsDepleted : Text → List Voucher → Type 0
IsDepleted code vs =
    (w : Voucher) × (find_first (λ x. text_eq x.code code) vs ≡ some w)
    × (w.status ≡ VoucherStatus.depleted)

-- The write that spends a usable voucher does not touch a row that is used up.
spend-IsDepleted :
    (code : Text) (v : Voucher) (c : Customer) (vs : List Voucher)
    → is_usable v.status ≡ true
    → IsDepleted code vs
    → IsDepleted code (update_where (is_same_row v) (spend v c) vs)
spend-IsDepleted code v c [] usable (w, e, d) = absurd (ground arith)
spend-IsDepleted code v c (x ∷ vs) usable (w, e, d) = elim (Bool-cases (text_eq x.code code)) [
  | inl hit ↦
      let this : x ≡ w = some-injective x w (ground arith) in
      let spent : x.status ≡ VoucherStatus.depleted = rw this d in (x, ground arith, spent)
  | inr miss ↦
      let rest = spend-IsDepleted code v c vs usable (w, ground arith, d) in
      (rest.0, ground arith, rest.2)
]

module _ (env : RedeemEnv) (code : Text) where
  use_up-IsDepleted :
      (v : Voucher) (p : Package) (c : Customer) (db before : Db)
      → is_usable v.status ≡ true
      → db.vouchers ≡ before.vouchers
      → IsDepleted code before.vouchers
      → IsDepleted code (use_up env v p c db before).1.vouchers
  unfolding mark_agent_voucher_sold
  use_up-IsDepleted v p c db before usable same h =
      let h' : IsDepleted code db.vouchers = rw same h in
      let spent = spend-IsDepleted code v c db.vouchers usable h' in
      elim (Bool-cases (env.fails update_voucher)) [
        | inl failing ↦ rw failing h
        | inr written ↦ elim (Bool-cases (count_where (is_same_row v) db.vouchers == 0)) [
          | inl missed ↦ rw (written, missed) h
          | inr hit ↦ elim (Bool-cases (env.fails mark_sold)) [
            | inl failing ↦ rw (written, hit, failing) h
            | inr marked ↦ rw (written, hit, marked) spent
          ]
        ]
      ]

  for_customer-IsDepleted :
      (v : Voucher) (p : Package) (phone : Text) (o : Option Customer) (db : Db)
      → is_usable v.status ≡ true
      → IsDepleted code db.vouchers
      → IsDepleted code (for_customer env v p phone o db).1.vouchers
  for_customer-IsDepleted v p phone none db usable h = elim (Bool-cases (ltb (length phone) 4)) [
    | inl short ↦ rw short h
    | inr fine ↦ elim (Bool-cases (env.fails create_customer)) [
      | inl failing ↦ rw (fine, failing) h
      | inr made ↦
          rw (fine, made)
            (use_up-IsDepleted v p (guest env v p phone db.next_customer)
              (record db {
                customers = db.customers ++ guest env v p phone db.next_customer ∷ [];
                next_customer = suc db.next_customer;
              })
              db usable refl h)
    ]
  ]
  for_customer-IsDepleted v p phone (some c) db usable h =
      use_up-IsDepleted v p (renewed env v p c)
        (if env.fails update_customer then db else record db {
          customers = update_where (λ r. r.id == c.id) (renewed env v p) db.customers;
        })
        db usable (ground arith) h

  with_package-IsDepleted :
      (v : Voucher) (phone : Text) (o : Option Package) (db : Db)
      → is_usable v.status ≡ true
      → IsDepleted code db.vouchers
      → IsDepleted code (with_package env v phone o db).1.vouchers
  with_package-IsDepleted v phone none db usable h = h
  with_package-IsDepleted v phone (some p) db usable h =
      elim (Bool-cases (text_eq p.status (bytes "active"))) [
        | inl active ↦ rw active (
            for_customer-IsDepleted v p phone
              (row_or_none (env.fails find_customer)
                (find_first (is_customer_of phone v.zone_id) db.customers))
              db usable h)
        | inr other ↦ rw other h
      ]

  with_voucher-IsDepleted :
      (phone : Text) (o : Option Voucher) (db : Db)
      → IsDepleted code db.vouchers
      → IsDepleted code (with_voucher env phone o db).1.vouchers
  with_voucher-IsDepleted phone none db h = h
  with_voucher-IsDepleted phone (some v) db h = elim (Bool-cases (is_usable v.status)) [
    | inr refused ↦ rw refused h
    | inl usable ↦ elim (Bool-cases (is_past env.now v.expires_at)) [
      | inl past ↦ rw (usable, past) h
      | inr current ↦
          rw (usable, current)
            (with_package-IsDepleted v phone
              (row_or_none (env.fails find_package)
                (find_first (λ p. p.id == v.package_id) db.packages))
              db usable h)
    ]
  ]

-- Redemptions by anybody, each in an environment of its own.
unfoldable pub redeem_all : List (RedeemEnv × Text × Text) → Db → Db
redeem_all [] db = db
redeem_all ((env, code, phone) ∷ calls) db = redeem_all calls (redeem env code phone db).1

redeem_all-IsDepleted :
    (calls : List (RedeemEnv × Text × Text)) (code : Text) (db : Db)
    → IsDepleted code db.vouchers
    → IsDepleted code (redeem_all calls db).vouchers
unfolding redeem_all redeem
redeem_all-IsDepleted [] code db h = h
redeem_all-IsDepleted ((env, c, phone) ∷ calls) code db h =
    redeem_all-IsDepleted calls code (redeem env c phone db).1 (
      with_voucher-IsDepleted env code phone
        (row_or_none (env.fails find_voucher) (voucher_by_code env c db)) db h)

denied_depleted :
    (env : RedeemEnv) (code phone : Text) (db : Db)
    → env.fails find_voucher ≡ false
    → IsDepleted (to_upper (trim_space code)) db.vouchers
    → redeem env code phone db ≡ (denied unusable, db)
unfolding redeem
denied_depleted env code phone db finds (w, found, spent) = rw (redeem, finds, found, spent) refl

-- After a redemption that is granted and that reaches the voucher's limit, and after any further
-- redemptions of any codes, a redemption of the same code, by whatever phone and at whatever time, is
-- denied as the code is used up, and changes nothing (where its query for the voucher does not fail).
pub redeem_spent :
    (env env' : RedeemEnv) (code phone phone' : Text) (db db' : Db) (r : Redeemed)
    (calls : List (RedeemEnv × Text × Text))
    → env.fails find_voucher ≡ false
    → redeem env code phone db ≡ (granted r, db')
    → leb_ℤ (limit_of r.voucher) r.voucher.usage_count ≡ true
    → env'.fails find_voucher ≡ false
    → redeem env' code phone' (redeem_all calls db') ≡ (denied unusable, redeem_all calls db')
unfolding redeem
redeem_spent env env' code phone phone' db db' r calls finds h spent finds' =
    let (v, here, s) =
      with_voucher-Spends env phone
        (row_or_none (env.fails find_voucher) (voucher_by_code env code db)) db db' r h in
    let found : voucher_by_code env code db ≡ some v = ground arith in
    let key = to_upper (trim_space code) in
    let own = found_spent key v s.customer db.vouchers found in
    let after : voucher_by_code env' code db' ≡ some (spend v s.customer v) =
      subst (λ vs. find_first (λ x. text_eq x.code key) vs ≡ some (spend v s.customer v))
        (sym s.written) own in
    let reached : leb_ℤ (limit_of v) (v.usage_count +ℤ pos 1) ≡ true =
      subst (λ w. leb_ℤ (limit_of w) w.usage_count ≡ true) s.answer spent in
    denied_depleted env' code phone' (redeem_all calls db') finds'
      (redeem_all-IsDepleted calls key db' (spend v s.customer v, after, rw reached refl))
