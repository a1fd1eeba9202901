-- ===== src/Payout/Price.antt =====
-- The price of a payout (services/payout.go: `round2`, `Price`, `EffectiveCommission`). Go's float64 is
-- known by its bits only: its operations, and the package math, are parameters, and so is the way of an
-- amount between a column with two decimals and a float64.
use zyranet_api.Base.{
  ℕ, ◌+◌, ◌-◌, ◌*◌, ◌/◌, ◌≤◌, ◌<◌, ◌^◌, ◌≡◌, Bool, false, Option, none, some, arith, if◌then◌else◌,
}
use zyranet_api.Int.{ℤ}

abbrev pub Float64 : Type 0
Float64 = ℕ

pub record FloatArith : Type 0 where
  pub of_cents : ℕ → Float64
  pub of_hundredths : ℤ → Float64
  -- As a column with two decimals stores it.
  pub cents : Float64 → ℕ
  pub hundredths : Float64 → ℤ
  -- The constants 0, 100 and 1e-9.
  pub nought : Float64
  pub hundred : Float64
  pub tiny : Float64
  pub is_nan : Float64 → Bool
  pub below : Float64 → Float64 → Bool
  pub times : Float64 → Float64 → Float64
  pub over : Float64 → Float64 → Float64
  pub plus : Float64 → Float64 → Float64
  pub minus : Float64 → Float64 → Float64
  pub min : Float64 → Float64 → Float64
  pub max : Float64 → Float64 → Float64
  pub round : Float64 → Float64
  pub floor : Float64 → Float64
  -- `int64` of a value that is not negative.
  pub whole : Float64 → ℕ

pub record Priced : Type 0 where
  pub commission : Float64
  pub net : Float64
  pub payout : ℕ

module _ (f : FloatArith) where
  unfoldable pub round2 : Float64 → Float64
  round2 v = f.over (f.round (f.times v f.hundred)) f.hundred

  abbrev pub clamp_percent : Float64 → Float64
  clamp_percent p =
      let q = if f.below p f.nought then f.nought else p in
      if f.below f.hundred q then f.hundred else q

  unfoldable pub price : Float64 → Float64 → Priced
  price gross percent =
      let commission = round2 (f.over (f.times gross (clamp_percent percent)) f.hundred) in
      let net = round2 (f.minus gross commission) in
      record { commission = commission; net = net; payout = f.whole (f.floor (f.plus net f.tiny)) }

  -- The ISP's own rate if it has one, else the platform's.
  abbrev pub rate_of : Option ℤ → Float64 → Float64
  rate_of none default = default
  rate_of (some own) default = f.of_hundredths own

  unfoldable pub effective_commission : Option ℤ → Float64 → Float64
  effective_commission own default = f.min f.hundred (f.max f.nought (rate_of own default))

-- Amounts up to here, in cents, are far from where a float64 loses cents.
abbrev pub exact_cents : ℕ
exact_cents = 2 ^ 37

-- A rate between 0 and 100 percent.
abbrev pub IsRate : FloatArith → Float64 → Type 0
IsRate f p = (f.is_nan p ≡ false) × (f.below p f.nought ≡ false) × (f.below f.hundred p ≡ false)

-- What IEEE 754 and the package math say of amounts of whole cents below the bound. The share of a rate
-- is some number of cents within the amount, which one being left open: where the exact share is half a
-- cent, either neighbour may come out.
pub record FloatLaws (f : FloatArith) : Type 0 where
  pub column_number : (n : ℤ) → f.is_nan (f.of_hundredths n) ≡ false
  pub clamped : (p : Float64) → f.is_nan p ≡ false → IsRate f (f.min f.hundred (f.max f.nought p))
  pub stored : (n : ℕ) → n < exact_cents → f.cents (f.of_cents n) ≡ n
  pub rounded : (n : ℕ) → n < exact_cents → round2 f (f.of_cents n) ≡ f.of_cents n
  pub share :
      (g : ℕ) (p : Float64)
      → g < exact_cents
      → IsRate f p
      → (c : ℕ) × (c ≤ g) × (round2 f (f.over (f.times (f.of_cents g) p) f.hundred) ≡ f.of_cents c)
  pub difference :
      (g c : ℕ)
      → g < exact_cents
      → c ≤ g
      → round2 f (f.minus (f.of_cents g) (f.of_cents c)) ≡ f.of_cents (g - c)
  pub shillings :
      (n : ℕ) → n < exact_cents → f.whole (f.floor (f.plus (f.of_cents n) f.tiny)) ≡ n / 100

effective_commission-IsRate :
    (f : FloatArith) (own : Option ℤ) (default : Float64)
    → FloatLaws f
    → f.is_nan default ≡ false
    → IsRate f (effective_commission f own default)
unfolding effective_commission
effective_commission-IsRate f none default laws number = laws.clamped default number
effective_commission-IsRate f (some n) default laws number =
    laws.clamped (f.of_hundredths n) (laws.column_number n)

-- What the columns of a price store: the commission and the net make up the gross, and the payout is the
-- largest number of whole shillings within the net.
pub price_splits :
    (f : FloatArith) (own : Option ℤ) (default : Float64) (gross : ℕ)
    → FloatLaws f
    → f.is_nan default ≡ false
    → gross < exact_cents
    → let r = price f (f.of_cents gross) (effective_commission f own default) in
      (f.cents r.commission + f.cents r.net ≡ gross)
      × (100 * r.payout ≤ f.cents r.net)
      × (f.cents r.net < 100 * r.payout + 100)
unfolding price
price_splits f own default gross laws number small =
    let p = effective_commission f own default in
    let rate = effective_commission-IsRate f own default laws number in
    let (c, le, share) = laws.share gross p small rate in
    let left : gross - c < exact_cents = omega (arith, small) in
    let held : c < exact_cents = omega (arith, small, le) in
    let difference = laws.difference gross c small le in
    rw (price, rate.1)
      (rw rate.2 (
        rw share (
          rw
            (
              difference,
              laws.stored c held,
              laws.stored (gross - c) left,
              laws.shillings (gross - c) left,
            )
            (omega (arith, le), omega arith, omega arith))))
