-- ===== src/Payout/Samples.antt =====
-- An arithmetic at which the runs of payouts are made.
use zyranet_api.Base.{ℕ, ◌+◌, ◌-◌, ◌*◌, ◌/◌, ◌≤◌, ◌≡◌, refl, false, arith, ltb, if◌then◌else◌}
use zyranet_api.Int.{pos, negsuc}
use zyranet_api.Payout.Price.{FloatArith, FloatLaws, round2}

-- Decimals with four places, in which the laws hold: a number stands for its ten-thousandth part.
abbrev pub decimals : FloatArith
decimals = record {
  of_cents = λ n. 100 * n;
  of_hundredths = λ z. elim z [ pos n ↦ 100 * n | negsuc n ↦ 0 ];
  cents = λ v. v / 100;
  hundredths = λ v. pos (v / 100);
  nought = 0;
  hundred = 1_000_000;
  tiny = 0;
  is_nan = λ v. false;
  below = ltb;
  times = λ v w. v * w / 10_000;
  over = λ v w. v * 10_000 / w;
  plus = λ v w. v + w;
  minus = λ v w. v - w;
  min = λ v w. if ltb w v then w else v;
  max = λ v w. if ltb v w then w else v;
  round = λ v. (v + 5000) / 10_000 * 10_000;
  floor = λ v. v / 10_000 * 10_000;
  whole = λ v. v / 10_000;
}

share_within : (g p q : ℕ) → p ≤ 1_000_000 → q ≡ 100 * g * p / 10_000 → q ≤ 10_000 * g
share_within g p q h e = let most : g * p ≤ g * 1_000_000 = grind arith in omega (arith, e, most)

pub decimals-FloatLaws : FloatLaws decimals
unfolding round2
decimals-FloatLaws = record {
  column_number = λ n. refl;
  clamped = λ p h. (refl, ground arith, ground arith);
  stored = λ n h. omega arith;
  rounded = λ n h. omega arith;
  share = λ g p h rate.
      let q = 100 * g * p / 10_000 in
      let most : p ≤ 1_000_000 = ground (arith, rate.2) in
      let within = share_within g p q most refl in
      (
        (q * 10_000 / 1_000_000 * 1_000_000 / 10_000 + 5000) / 10_000,
        omega (arith, within),
        omega arith,
      );
  difference = λ g c h le. omega (arith, le);
  shillings = λ n h. omega arith;
}
