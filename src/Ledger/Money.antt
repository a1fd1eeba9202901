-- ===== src/Ledger/Money.antt =====
-- Amounts as text (services/agent_ledger.go: `FormatCents`, `max64`).
use zyranet_api.Base.{
  ℕ, zero, suc, ◌-◌, ◌/◌, ◌%◌, ◌≡◌, refl, [], ◌∷◌, ◌++◌, ltb, if◌then◌else◌, length,
}
use zyranet_api.Int.{ℤ, pos, negsuc, ltb_ℤ}
use zyranet_api.Text.{Text, bytes, decimal}

unfoldable pub max64 : ℤ → ℤ → ℤ
max64 a b = if ltb_ℤ b a then a else b

-- The text with `sep` put in front of position `i`.
insert_at : ℕ → ℕ → Text → Text
insert_at sep zero s = sep ∷ s
insert_at sep (suc i) [] = sep ∷ []
insert_at sep (suc i) (c ∷ s) = c ∷ insert_at sep i s

-- `for i := len(s) - 3; i > 0; i -= 3`: subtraction stops at 0, where the loop has ended.
group_thousands : ℕ → ℕ → Text → Text
group_thousands zero i s = s
group_thousands (suc fuel) i s =
    let rest = group_thousands fuel (i - 3) (insert_at b',' i s) in if ltb 0 i then rest else s

two_digits : ℕ → Text
two_digits n = if ltb n 10 then 48 ∷ decimal n else decimal n

shillings : ℕ → Text
unfolding insert_at group_thousands two_digits
shillings c =
    let whole = decimal (c / 100) in
    group_thousands (length whole) (length whole - 3) whole ++ b'.' ∷ two_digits (c % 100)

-- For every int64 but the least, whose negation wraps.
unfoldable pub format_cents : ℤ → Text
unfolding shillings
format_cents (pos n) = shillings n
format_cents (negsuc n) = b'-' ∷ shillings (suc n)

format_cents_test : format_cents (negsuc 123456788) ≡ bytes "-1,234,567.89"
unfolding format_cents decimal
format_cents_test = refl
