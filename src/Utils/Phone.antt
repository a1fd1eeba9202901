-- ===== src/Utils/Phone.antt =====
-- Kenyan phone numbers (utils/response.go: `FormatPhone`, `FormatPhoneE164`).
use zyranet_api.Base.{
  ℕ, ◌≡◌, refl, not, ◌&&◌, ◌||◌, [], ◌∷◌, ltb, ◌==◌, if◌then◌else◌, length, ◌⊎◌, inl, inr,
}
use zyranet_api.Text.{Text}
use zyranet_api.Text.Cut.{drop, has_prefix, keep, is_digit}

-- 254 in front of a text.
abbrev pub country : Text → Text
country s = b'2' ∷ b'5' ∷ b'4' ∷ s

abbrev pub without_double : Text → Text
without_double d = if has_prefix d (country (country [])) then drop 3 d else d

abbrev pub without_zero : Text → Text
without_zero d = if has_prefix d (country (b'0' ∷ [])) then country (drop 4 d) else d

abbrev pub leading_zero : Text → Text
leading_zero d = if has_prefix d (b'0' ∷ []) then country (drop 1 d) else d

abbrev pub bare_local : Text → Text
bare_local d =
    if length d == 9 && (has_prefix d (b'7' ∷ []) || has_prefix d (b'1' ∷ [])) then country d else d

unfoldable pub format_phone : Text → Text
format_phone phone = bare_local (leading_zero (without_zero (without_double (keep is_digit phone))))

unfoldable pub format_phone_e164 : Text → Text
unfolding format_phone
format_phone_e164 phone =
    let p = format_phone phone in
    if ltb 0 (length p) && not (has_prefix p (b'+' ∷ [])) then b'+' ∷ p else p

-- The ways in which a subscriber number is written.
pub data Written : Type 0 where
  bare zero_first country_first country_zero country_twice : Written

abbrev pub in_front_of : Written → Text → Text
in_front_of bare s = s
in_front_of zero_first s = b'0' ∷ s
in_front_of country_first s = country s
in_front_of country_zero s = country (b'0' ∷ s)
in_front_of country_twice s = country (country s)

-- However a subscriber number of nine digits that starts with 7 or 1 is written, with whatever other
-- characters between the digits, it is normalised to 254 and the number.
pub format_phone_normalises :
    (w : Written) (d : ℕ) (rest phone : Text)
    → (d ≡ b'7') ⊎ (d ≡ b'1')
    → length rest ≡ 8
    → keep is_digit phone ≡ in_front_of w (d ∷ rest)
    → format_phone phone ≡ country (d ∷ rest)
unfolding format_phone
format_phone_normalises bare d rest phone (inl e) n h = rw (h, e) (rw n refl)
format_phone_normalises bare d rest phone (inr e) n h = rw (h, e) (rw n refl)
format_phone_normalises zero_first d rest phone (inl e) n h = rw (h, e) (rw n refl)
format_phone_normalises zero_first d rest phone (inr e) n h = rw (h, e) (rw n refl)
format_phone_normalises country_first d rest phone (inl e) n h = rw (h, e) (rw n refl)
format_phone_normalises country_first d rest phone (inr e) n h = rw (h, e) (rw n refl)
format_phone_normalises country_zero d rest phone (inl e) n h = rw (h, e) (rw n refl)
format_phone_normalises country_zero d rest phone (inr e) n h = rw (h, e) (rw n refl)
format_phone_normalises country_twice d rest phone (inl e) n h = rw (h, e) (rw n refl)
format_phone_normalises country_twice d rest phone (inr e) n h = rw (h, e) (rw n refl)
