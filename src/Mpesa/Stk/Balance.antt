-- ===== src/Mpesa/Stk/Balance.antt =====
-- Balances under adjustments (services/credit.go, `AdjustCredit`).
use zyranet_api.Base.{
  ℕ, ◌≤◌, ◌⊎◌, update_where_none, ◌≡◌, Bool, true, ◌&&◌, List, [], ◌∷◌, ◌==◌, arith, Bool-cases,
  inl, inr, All, update_where, count_where,
}
use zyranet_api.Int.{ℤ, pos, leb_ℤ, ◌+ℤ◌, ◌-ℤ◌, +ℤ_parts, -ℤ_parts}
use zyranet_api.Models.{Customer}
use zyranet_api.Mpesa.Stk.Payer.{adjust_credit, has_customer_id, covers, credit_by, debit_by}

-- No balance is below zero.
abbrev pub AllSolvent : List Customer → Type 0
AllSolvent = All (λ c. leb_ℤ (pos 0) c.credit_balance ≡ true)

updated-AllSolvent :
    (test : Customer → Bool) (f : Customer → Customer)
    → ((c : Customer)
        → test c ≡ true
        → leb_ℤ (pos 0) c.credit_balance ≡ true
        → leb_ℤ (pos 0) (f c).credit_balance ≡ true)
    → (cs : List Customer) → AllSolvent cs
    → AllSolvent (update_where test f cs)
updated-AllSolvent test f each [] h = tt
updated-AllSolvent test f each (c ∷ cs) h = elim (Bool-cases (test c)) [
  | inl hit ↦ rw hit (each c hit h.0, updated-AllSolvent test f each cs h.1)
  | inr miss ↦ rw miss (h.0, updated-AllSolvent test f each cs h.1)
]

add_solvent :
    (a b : ℤ) → leb_ℤ (pos 0) a ≡ true → leb_ℤ (pos 0) b ≡ true → leb_ℤ (pos 0) (a +ℤ b) ≡ true
add_solvent a b p q = ground (arith, +ℤ_parts a b)

sub_solvent : (a b : ℤ) → leb_ℤ b a ≡ true → leb_ℤ (pos 0) (a -ℤ b) ≡ true
sub_solvent a b p = ground (arith, -ℤ_parts a b)

covered-le :
    (id : ℕ) (test : Customer → Bool) (cs : List Customer)
    → count_where (λ c. c.id == id && test c) cs ≤ count_where (has_customer_id id) cs
covered-le id test [] = omega arith
covered-le id test (c ∷ cs) = ground (arith, covered-le id test cs)

-- An update of one row at most says that it changed a row, or changes nothing.
told_or_same :
    (test : Customer → Bool) (f : Customer → Customer) (cs : List Customer)
    → count_where test cs ≤ 1
    → ((count_where test cs == 1) ≡ true) ⊎ (update_where test f cs ≡ cs)
told_or_same test f cs few = elim (Bool-cases (count_where test cs == 1)) [
  | inl one ↦ inl one
  | inr other ↦ inr (update_where_none test f cs (ground arith))
]

-- Where no balance is below zero, and the id is one customer's at most: no balance is below zero after an
-- adjustment, whatever its amount, and an adjustment that does not say that it was made changes nothing.
pub adjust_credit-AllSolvent :
    (id : ℕ) (delta : ℤ) (cs : List Customer)
    → AllSolvent cs
    → count_where (has_customer_id id) cs ≤ 1
    → AllSolvent (adjust_credit id delta cs).1
      × (((adjust_credit id delta cs).0 ≡ true) ⊎ ((adjust_credit id delta cs).1 ≡ cs))
unfolding adjust_credit
adjust_credit-AllSolvent id delta cs h few = elim (Bool-cases (leb_ℤ (pos 0) delta)) [
  | inl adds ↦ rw adds (
    updated-AllSolvent (has_customer_id id) (credit_by delta)
        (λ c hit solvent. add_solvent c.credit_balance delta solvent adds) cs h,
    told_or_same (has_customer_id id) (credit_by delta) cs few,
  )
  | inr takes ↦ rw takes (
    updated-AllSolvent (λ c. c.id == id && covers (pos 0 -ℤ delta) c) (debit_by (pos 0 -ℤ delta))
        (λ c hit solvent. sub_solvent c.credit_balance (pos 0 -ℤ delta) (ground arith)) cs h,
    told_or_same (λ c. c.id == id && covers (pos 0 -ℤ delta) c) (debit_by (pos 0 -ℤ delta)) cs
        (omega (arith, few, covered-le id (covers (pos 0 -ℤ delta)) cs)),
  )
]
