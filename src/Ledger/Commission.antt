-- ===== src/Ledger/Commission.antt =====
-- The commission on one voucher (services/agent_ledger.go, `CommissionFor`).
use zyranet_api.Base.{ℕ, ◌+◌, ◌*◌, ◌/◌, ◌≤◌, ◌<◌, ◌^◌, ◌≡◌, false, arith, if◌then◌else◌}
use zyranet_api.Int.{ℤ, pos, ltb_ℤ, ◌≤ℤ◌, ◌+ℤ◌, ◌*ℤ◌, quot}
use zyranet_api.Words.{wrap64, add64, mul64}
use zyranet_api.Text.{Text, bytes, text_eq}

-- What the rate gives before it is brought into the range from 0 to the face value.
raw_commission : Text → ℤ → ℤ → ℤ
raw_commission kind value face =
    if text_eq kind (bytes "fixed") then value else quot (add64 (mul64 face value) (pos 5000)) 10000

unfoldable pub commission_for : Text → ℤ → ℤ → ℤ
unfolding raw_commission
commission_for kind value face =
    let c = raw_commission kind value face in
    if ltb_ℤ c (pos 0) then pos 0 else if ltb_ℤ face c then face else c

clamp_bounds :
    (c face : ℤ)
    → pos 0 ≤ℤ face
    → let r = (if ltb_ℤ c (pos 0) then pos 0 else if ltb_ℤ face c then face else c) in
      (pos 0 ≤ℤ r) × (r ≤ℤ face)
clamp_bounds c face h = ground arith

-- For every rate, kind of rate and face value of at least zero, the commission lies between zero
-- and the face value, also where the product of face value and rate wraps.
pub commission_for_bounds :
    (kind : Text) (value face : ℤ)
    → pos 0 ≤ℤ face
    → (pos 0 ≤ℤ commission_for kind value face) × (commission_for kind value face ≤ℤ face)
unfolding commission_for
commission_for_bounds kind value face h = clamp_bounds (raw_commission kind value face) face h

product_pos :
    (f v : ℕ)
    → f * v + 5000 < 2 ^ 63
    → add64 (mul64 (pos f) (pos v)) (pos 5000) ≡ pos (f * v + 5000)
unfolding add64 mul64 ◌*ℤ◌ ◌+ℤ◌ wrap64
product_pos f v h = ground arith

rounded-le : (f v : ℕ) → v ≤ 10000 → (f * v + 5000) / 10000 ≤ f
rounded-le f v h = let p : f * v ≤ f * 10000 = grind arith in omega arith

clamp_pos :
    (c f : ℕ)
    → c ≤ f
    → (if ltb_ℤ (pos c) (pos 0) then pos 0 else if ltb_ℤ (pos f) (pos c) then pos f else pos c)
      ≡ pos c
clamp_pos c f h = ground arith

percent_value :
    (kind : Text) (f v : ℕ)
    → text_eq kind (bytes "fixed") ≡ false
    → f * v + 5000 < 2 ^ 63
    → v ≤ 10000
    → commission_for kind (pos v) (pos f) ≡ pos ((f * v + 5000) / 10000)
unfolding commission_for raw_commission quot
percent_value kind f v k h r =
    rw (k, product_pos f v h) (clamp_pos ((f * v + 5000) / 10000) f (rounded-le f v r))

-- A percentage rate of at most 10000 basis points, where the product does not overflow an int64,
-- gives the exact share of the face value rounded to the nearest cent, a half upwards.
pub commission_for_nearest :
    (kind : Text) (f v : ℕ)
    → text_eq kind (bytes "fixed") ≡ false
    → f * v + 5000 < 2 ^ 63
    → v ≤ 10000
    → (c : ℕ) × (commission_for kind (pos v) (pos f) ≡ pos c)
      × (2 * (10000 * c) ≤ 2 * (f * v) + 10000)
      × (2 * (f * v) + 10000 < 2 * (10000 * c) + 20000)
commission_for_nearest kind f v k h r =
    ((f * v + 5000) / 10000, percent_value kind f v k h r, omega arith, omega arith)
