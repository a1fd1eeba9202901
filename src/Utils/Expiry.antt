-- ===== src/Utils/Expiry.antt =====
-- When a subscription ends (utils/response.go, `CalculateExpiry`; services/voucher.go,
-- `calculateVoucherExpiry`). `add_month` is the calendar's `AddDate(0, 1, 0)`.
use zyranet_api.Base.{
  ℕ, zero, suc, ◌+◌, ◌-◌, ◌*◌, ◌<◌, ◌≤◌, ◌≡◌, Option, none, some, ltb, if◌then◌else◌, arith,
}
use zyranet_api.Int.{ℤ, pos, negsuc, ltb_ℤ, ◌*ℤ◌}
use zyranet_api.Words.{mul64, wrap64}
use zyranet_api.Text.{Text, bytes, text_eq}

-- Nanoseconds.
abbrev pub minute : ℕ
minute = 60_000_000_000

abbrev pub hour : ℕ
hour = 3_600_000_000_000

-- `Time.Add` of a duration, for times after the epoch.
abbrev pub add_duration : ℕ → ℤ → ℕ
add_duration t (pos d) = t + d
add_duration t (negsuc d) = t - suc d

abbrev pub later_of : ℕ → Option ℕ → ℕ
later_of now none = now
later_of now (some base) = if ltb now base then base else now

abbrev pub by_cycle : (ℕ → ℕ) → Text → ℕ → ℕ
by_cycle add_month cycle t =
    if text_eq cycle (bytes "hourly")
    then t + hour
    else if text_eq cycle (bytes "daily")
    then t + 24 * hour
    else if text_eq cycle (bytes "weekly")
    then t + 7 * 24 * hour
    else add_month t

-- A positive time limit wins over the billing cycle.
unfoldable pub calculate_expiry : (ℕ → ℕ) → ℕ → Text → Option ℕ → Option ℤ → ℕ
calculate_expiry add_month now cycle base none = by_cycle add_month cycle (later_of now base)
calculate_expiry add_month now cycle base (some limit) =
    if ltb_ℤ (pos 0) limit
    then add_duration (later_of now base) (mul64 limit (pos minute))
    else by_cycle add_month cycle (later_of now base)

unfoldable pub calculate_voucher_expiry : (ℕ → ℕ) → ℕ → Text → Option ℤ → ℕ
unfolding calculate_expiry
calculate_voucher_expiry add_month now cycle none = calculate_expiry add_month now cycle none none
calculate_voucher_expiry add_month now cycle (some limit) =
    if ltb_ℤ (pos 0) limit
    then add_duration now (mul64 limit (pos minute))
    else calculate_expiry add_month now cycle none none

minutes_exact : (n : ℕ) → n ≤ 150_000_000 → mul64 (pos n) (pos minute) ≡ pos (n * minute)
unfolding mul64 ◌*ℤ◌ wrap64
minutes_exact n h = ground arith

-- A time limit of at most 150 million minutes, where there is a positive one.
abbrev pub IsModest : Option ℤ → Type 0
IsModest none = Unit
IsModest (some (pos n)) = n ≤ 150_000_000
IsModest (some (negsuc n)) = Unit

by_cycle-gt :
    (add_month : ℕ → ℕ) (cycle : Text) (t : ℕ) → t < add_month t → t < by_cycle add_month cycle t
by_cycle-gt add_month cycle t h = ground arith

now-le : (now : ℕ) (base : Option ℕ) → now ≤ later_of now base
now-le now none = omega arith
now-le now (some b) = ground arith

-- Where a month later is later, and a time limit is at most 150 million minutes, a subscription that is
-- bought ends after now and after the end that was bought before, if there was one: paying again never
-- shortens it.
pub calculate_expiry_extends :
    (add_month : ℕ → ℕ) (now : ℕ) (cycle : Text) (base : Option ℕ) (limit : Option ℤ)
    → ((t : ℕ) → t < add_month t)
    → IsModest limit
    → (now < calculate_expiry add_month now cycle base limit)
      × (later_of now base < calculate_expiry add_month now cycle base limit)
unfolding calculate_expiry
calculate_expiry_extends add_month now cycle base none later m =
    let step = by_cycle-gt add_month cycle (later_of now base) (later (later_of now base)) in
    (omega (arith, now-le now base, step), step)
calculate_expiry_extends add_month now cycle base (some (negsuc n)) later m =
    let step = by_cycle-gt add_month cycle (later_of now base) (later (later_of now base)) in
    (ground (arith, now-le now base, step), ground (arith, step))
calculate_expiry_extends add_month now cycle base (some (pos zero)) later m =
    let step = by_cycle-gt add_month cycle (later_of now base) (later (later_of now base)) in
    (ground (arith, now-le now base, step), ground (arith, step))
calculate_expiry_extends add_month now cycle base (some (pos (suc n))) later m =
    rw (minutes_exact (suc n) m) (ground (arith, now-le now base), ground arith)
