-- ===== src/Mpesa/C2b/Phones.antt =====
-- What the agreement of two telephone numbers says (services/c2b_verify.go, `phonesCompatible`).
use zyranet_api.Base.{
  ℕ, ◌≤◌, ◌≡◌, refl, sym, ap, ◌∙◌, true, false, not, [], ◌∷◌, ◌++◌, ◌==◌, length, arith,
}
use zyranet_api.Text.{Text, bytes, text_eq, trim_space, trim_left, trim_right, is_space}
use zyranet_api.Text.Cut.{keep, has_prefix}
use zyranet_api.Utils.Phone.{format_phone}
use zyranet_api.Mpesa.C2b.{all_digits, visible_agree, before_hyphen, phones_compatible}

-- Digits that are all shown agree only with themselves.
visible_agree_same :
    (party a : Text)
    → all_digits party ≡ true
    → length party ≡ length a
    → visible_agree party a ≡ true
    → party ≡ a
visible_agree_same [] [] d n h = refl
visible_agree_same [] (x ∷ a) d n h = absurd (ground arith)
visible_agree_same (p ∷ ps) [] d n h = absurd (ground arith)
visible_agree_same (p ∷ ps) (x ∷ a) d n h = ground (arith, visible_agree_same ps a)

-- The debit party is a number, a space, a hyphen and a name.
abbrev debit_party_of : Text → Text → Text
debit_party_of party name = party ++ 32 ∷ b'-' ∷ name

before_hyphen-digits :
    (party name : Text)
    → all_digits party ≡ true
    → before_hyphen (debit_party_of party name) ≡ party ++ 32 ∷ []
before_hyphen-digits [] name h = refl
before_hyphen-digits (c ∷ party) name h = ground (arith, before_hyphen-digits party name)

trim_right-digits : (party : Text) → all_digits party ≡ true → trim_right (party ++ 32 ∷ []) ≡ party
unfolding trim_right
trim_right-digits [] h = refl
trim_right-digits (c ∷ []) h = ground arith
trim_right-digits (c ∷ d ∷ s) h = rw (trim_right-digits (d ∷ s) (ground arith)) refl

trim_space-digits :
    (c : ℕ) (party : Text)
    → all_digits (c ∷ party) ≡ true
    → trim_space ((c ∷ party) ++ 32 ∷ []) ≡ c ∷ party
unfolding trim_space trim_left
trim_space-digits c party h =
    let solid : is_space c ≡ false = ground arith in
    rw (trim_space, solid) (trim_right-digits (c ∷ party) h)

keep-digits : (s : Text) → all_digits s ≡ true → keep (λ c. not (c == 32)) s ≡ s
keep-digits [] h = refl
keep-digits (c ∷ s) h = ground (arith, keep-digits s)

compatible-visible :
    (msisdn debit_party : Text) (c : ℕ) (party : Text)
    → length (format_phone msisdn) ≡ 12
    → length msisdn ≤ 15
    → keep (λ x. not (x == 32)) (trim_space (before_hyphen debit_party)) ≡ c ∷ party
    → length (c ∷ party) ≡ 12
    → has_prefix (c ∷ party) (bytes "0") ≡ false
    → phones_compatible msisdn debit_party ≡ true
    → visible_agree (c ∷ party) (format_phone msisdn) ≡ true
unfolding phones_compatible text_eq
compatible-visible msisdn debit_party c party n short shown twelve bare h = ground arith

-- A payer whose number of twelve digits Safaricom shows in full (not starting with 0), with the name
-- behind it, agrees with a confirmation from a telephone number only if that number, normalised, is
-- the same.
pub phones_compatible_same :
    (msisdn party name : Text)
    → length (format_phone msisdn) ≡ 12
    → length msisdn ≤ 15
    → all_digits party ≡ true
    → length party ≡ 12
    → has_prefix party (bytes "0") ≡ false
    → phones_compatible msisdn (debit_party_of party name) ≡ true
    → party ≡ format_phone msisdn
phones_compatible_same msisdn [] name n short digits twelve bare h = absurd (ground arith)
phones_compatible_same msisdn (c ∷ party) name n short digits twelve bare h =
    let shown =
      ap (λ t. keep (λ x. not (x == 32)) (trim_space t))
        (before_hyphen-digits (c ∷ party) name digits)
      ∙ ap (keep (λ x. not (x == 32))) (trim_space-digits c party digits)
      ∙ keep-digits (c ∷ party) digits in
    visible_agree_same (c ∷ party) (format_phone msisdn) digits (twelve ∙ sym n) (
      compatible-visible msisdn (debit_party_of (c ∷ party) name) c party n short shown twelve bare
        h)
