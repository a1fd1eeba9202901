-- ===== src/Mpesa/Routes/Laws.antt =====
-- Where the money of an ISP goes and what the texts of a push hold (services/mpesa.go).
use zyranet_api.Base.{
  ℕ, zero, suc, ◌∷◌, ◌≡◌, refl, Bool, true, false, [], arith, length, ◌≤◌, All, Bool-cases, inl,
  inr,
}
use zyranet_api.Text.{Text, trim_space, text_eq, bytes}
use zyranet_api.Text.Cut.{take, keep}
use zyranet_api.Payout.Rows.{Organization}
use zyranet_api.Mpesa.Creds.{Creds, is_empty}
use zyranet_api.Mpesa.Routes.{
  buy_goods, pay_bill, sanitize, is_alphanumeric, sanitize_account_reference,
  sanitize_transaction_desc, StkRoute,
}

-- An ISP's own settlement number, complete and switched on.
pub data SettlesTo (org : Organization) : StkRoute → Type 0 where
  to_till :
      org.direct_settlement ≡ true
      → text_eq org.settlement_type (bytes "till") ≡ true
      → is_empty (trim_space org.settlement_till) ≡ false
      → SettlesTo org (record { kind = buy_goods; party_b = trim_space org.settlement_till })
  to_paybill :
      org.direct_settlement ≡ true
      → text_eq org.settlement_type (bytes "till") ≡ false
      → text_eq org.settlement_type (bytes "paybill") ≡ true
      → is_empty (trim_space org.settlement_paybill) ≡ false
      → is_empty (trim_space org.settlement_account) ≡ false
      → SettlesTo org (record { kind = pay_bill; party_b = trim_space org.settlement_paybill })

pub record IsReference (limit : ℕ) (s : Text) : Type 0 where
  pub given : is_empty s ≡ false
  pub fits : length s ≤ limit
  pub plain : All (λ c. is_alphanumeric c ≡ true) s

length-take : (n : ℕ) (s : Text) → length (take n s) ≤ n
length-take zero s = omega arith
length-take (suc n) [] = omega arith
length-take (suc n) (c ∷ s) = omega (arith, length-take n s)

All-take : (P : ℕ → Type 0) (n : ℕ) (s : Text) → All P s → All P (take n s)
All-take P zero s h = tt
All-take P (suc n) [] h = tt
All-take P (suc n) (c ∷ s) h = (h.0, All-take P n s h.1)

All-keep : (p : ℕ → Bool) (s : Text) → All (λ c. p c ≡ true) (keep p s)
All-keep p [] = tt
All-keep p (c ∷ s) = elim (Bool-cases (p c)) [
  | inl kept ↦ rw kept (kept, All-keep p s)
  | inr dropped ↦ rw dropped (All-keep p s)
]

sanitize-IsReference_of :
    (limit : ℕ) (default raw : Text)
    → IsReference limit default
    → IsReference limit (sanitize limit default raw)
sanitize-IsReference_of limit default raw d =
    elim (Bool-cases (is_empty (take limit (keep is_alphanumeric raw)))) [
      | inl empty ↦ rw empty d
      | inr given ↦ rw given (record {
        given = given;
        fits = length-take limit (keep is_alphanumeric raw);
        plain =
            All-take (λ c. is_alphanumeric c ≡ true) limit (keep is_alphanumeric raw)
              (All-keep is_alphanumeric raw);
      })
    ]

-- The account reference of a push is never empty, has at most 12 bytes, and has letters and digits
-- only; its description likewise, with at most 13 bytes.
pub sanitize-IsReference :
    (raw : Text)
    → IsReference 12 (sanitize_account_reference raw)
      × IsReference 13 (sanitize_transaction_desc raw)
unfolding sanitize_account_reference sanitize_transaction_desc text_eq
sanitize-IsReference raw = (
  sanitize-IsReference_of 12 (bytes "ZyraNet") raw (record {
    given = refl;
    fits = omega arith;
    plain = All-keep is_alphanumeric (bytes "ZyraNet");
  }),
  sanitize-IsReference_of 13 (bytes "Internet") raw (record {
    given = refl;
    fits = omega arith;
    plain = All-keep is_alphanumeric (bytes "Internet");
  }),
)
