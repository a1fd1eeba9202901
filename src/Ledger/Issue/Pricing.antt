-- ===== src/Ledger/Issue/Pricing.antt =====
-- The terms of a batch are exact: with prices of a decimal(10,2) column nothing overflows
-- (services/agent_ledger.go, `IssueToAgent`).
use zyranet_api.Base.{ℕ, ◌-◌, ◌*◌, ◌^◌, ◌≤◌, ◌<◌, ◌≡◌, refl, arith}
use zyranet_api.Int.{ℤ, pos, negsuc, ◌≤ℤ◌, ◌-ℤ◌, ◌*ℤ◌}
use zyranet_api.Words.{wrap64, mul64, sub64}
use zyranet_api.Ledger.Rows.{Agent}
use zyranet_api.Ledger.Commission.{commission_for, commission_for_bounds}
use zyranet_api.Ledger.Checks.{terms_of}

-- The largest amount of a decimal(10,2) column, in cents.
abbrev pub max_price : ℕ
max_price = 9_999_999_999

nonneg_pos : (z : ℤ) → pos 0 ≤ℤ z → (n : ℕ) × (z ≡ pos n)
nonneg_pos (pos n) h = (n, refl)
nonneg_pos (negsuc n) h = absurd (omega arith)

mul64_pos : (a b : ℕ) → a * b < 2 ^ 63 → mul64 (pos a) (pos b) ≡ pos (a * b)
unfolding mul64 ◌*ℤ◌ wrap64
mul64_pos a b h = ground arith

sub64_pos : (a b : ℕ) → b ≤ a → a < 2 ^ 63 → sub64 (pos a) (pos b) ≡ pos (a - b)
unfolding sub64 ◌-ℤ◌ wrap64
sub64_pos a b h k = ground arith

product_bound : (f q : ℕ) → f ≤ max_price → q ≤ 500 → f * q ≤ 4999999999500
product_bound f q h k = let p : f * q ≤ 9999999999 * q = grind arith in omega arith

-- The commission of one voucher is at most its face value, and the totals are the plain products.
pub terms_exact :
    (a : Agent) (f q : ℕ)
    → f ≤ max_price
    → q ≤ 500
    → let t = terms_of a (pos f) q in
      (c : ℕ) × (c ≤ f)
      × (t.face ≡ pos f)
      × (t.commission ≡ pos c)
      × (t.gross ≡ pos (f * q))
      × (t.commission_total ≡ pos (c * q))
      × (t.net ≡ pos (f * q - c * q))
      × (c * q ≤ f * q)
      × (f * q ≤ 4999999999500)
unfolding terms_of
terms_exact a f q h k =
    let bounds = commission_for_bounds a.commission_type a.commission_value (pos f) (omega arith) in
    let (c, e) =
      nonneg_pos (commission_for a.commission_type a.commission_value (pos f)) bounds.0 in
    let below : c ≤ f = omega (arith, rw e at bounds.1) in
    let smaller : c * q ≤ f * q = grind arith in
    let gross = product_bound f q h k in
    let gross_e = mul64_pos f q (omega arith) in
    let total_e = mul64_pos c q (omega arith) in
    let net_e = sub64_pos (f * q) (c * q) smaller (omega arith) in
    (c, below, refl, e, gross_e, rw e total_e, rw (e, gross_e, total_e) net_e, smaller, gross)
