-- ===== src/Mpesa/C2b.antt =====
-- Paybill payments (handlers/c2b_match.go: who a payment belongs to; services/c2b_verify.go: whether
-- Safaricom's record agrees with a confirmation, and parking one that nobody has vouched for).
pub mod Sole
pub mod Phones
pub mod Park
mod Tests
use zyranet_api.Base.{
  ℕ, ◌+◌, ◌-◌, Bool, true, false, not, ◌&&◌, ◌||◌, Option, none, some, List, [], ◌∷◌, ◌++◌, ltb,
  ◌==◌, if◌then◌else◌, length, select, exists_where,
}
use zyranet_api.Int.{ℤ}
use zyranet_api.Text.{Text, bytes, text_eq, trim_space}
use zyranet_api.Text.Cut.{drop, has_prefix, keep, is_digit, equal_fold, cut_suffix}
use zyranet_api.Models.{Zone}
use zyranet_api.Utils.Phone.{format_phone, country}

-- The columns of a customer that matching reads.
pub record Payer : Type 0 where
  pub id : ℕ
  pub zone_id : ℕ
  pub account_number : Text
  pub pppoe_username : Option Text
  pub phone : Text

abbrev pub all_digits : Text → Bool
all_digits [] = true
all_digits (c ∷ s) = is_digit c && all_digits s

abbrev pub is_separator : ℕ → Bool
is_separator c = c == b'+' || c == 32 || c == b'-'

-- The last nine digits of what looks like a telephone number, or nothing.
unfoldable pub phone_suffix9 : Text → Text
phone_suffix9 raw =
    let s = keep (λ c. not (is_separator c)) (trim_space raw) in
    if ltb (length s) 9 || ltb 13 (length s) || not (all_digits s)
    then []
    else drop (length s - 9) s

-- A query for customers.
pub data Lookup : Type 0 where
  by_account by_username by_phone : Text → Lookup

abbrev pub ends_with : Text → Text → Bool
ends_with s suffix = elim (cut_suffix s suffix) [ none ↦ false | some rest ↦ true ]

unfoldable pub fits : Lookup → Payer → Bool
fits (by_account t) p = text_eq p.account_number t
fits (by_username t) p = elim p.pppoe_username [ none ↦ false | some u ↦ text_eq u t ]
fits (by_phone suffix) p = ends_with p.phone suffix

-- Customers of the ISP whose shortcode was paid; on the shared paybill, all.
unfoldable pub in_scope : List Zone → Option ℕ → Payer → Bool
in_scope zones none p = true
in_scope zones (some org_id) p = exists_where (λ z. z.id == p.zone_id && z.org_id == org_id) zones

abbrev pub phone_lookup : Text → List Lookup
phone_lookup raw =
    let suffix = phone_suffix9 raw in if text_eq suffix [] then [] else by_phone suffix ∷ []

unfoldable pub lookups : Text → Text → List Lookup
lookups bill_ref msisdn =
    let ref = trim_space bill_ref in
    (if text_eq ref [] then [] else by_account ref ∷ by_username ref ∷ [])
    ++ phone_lookup ref
    ++ phone_lookup msisdn

pub data Match : Type 0 where
  belongs_to : Payer → Match
  ambiguous nobody : Match

-- One row decides, two or more are ambiguous, none passes on.
abbrev pub decide : List Payer → Match → Match
decide [] later = later
decide (p ∷ []) later = belongs_to p
decide (p ∷ q ∷ ps) later = ambiguous

-- A query that fails is passed over.
abbrev pub first_match : (Lookup → Bool) → List Zone → Option ℕ → List Payer → List Lookup → Match
first_match fails zones org payers [] = nobody
first_match fails zones org payers (l ∷ ls) =
    let later = first_match fails zones org payers ls in
    if fails l then later else decide (select (λ p. in_scope zones org p && fits l p) payers) later

unfoldable pub match_c2b_customer :
    (Lookup → Bool) → List Zone → List Payer → Option ℕ → Text → Text → Match
match_c2b_customer fails zones payers org bill_ref msisdn =
    first_match fails zones org payers (lookups bill_ref msisdn)

-- The ledger of confirmations.
pub data C2bStatus : Type 0 where
  received verifying credited parked : C2bStatus

pub record C2bTransaction : Type 0 where
  pub id : ℕ
  pub trans_id : Text
  pub amount : ℤ
  pub business_short_code : Text
  pub bill_ref_number : Text
  pub msisdn : Text
  pub first_name : Text
  pub middle_name : Text
  pub last_name : Text
  pub status : C2bStatus
  pub verify_note : Text
  pub updated_at : ℕ

-- Safaricom's record of a transaction; F is float64.
pub record C2bStatusResult (F : Type 0) : Type 0 where
  pub result_code : F
  pub result_desc : Text
  pub receipt_no : Text
  pub transaction_status : Text
  pub amount : Option F
  pub credit_party_name : Text
  pub debit_party_name : Text

-- Whether an amount that Safaricom says is the stored one, to less than a cent.
pub record AmountOps (F : Type 0) : Type 0 where
  pub is_zero_code : F → Bool
  pub is_near : F → ℤ → Bool

pub data Agreement : Type 0 where
  agrees failed_result other_receipt not_completed other_amount other_shortcode other_payer :
      Agreement

-- Digits that both sides show are the same.
abbrev pub visible_agree : Text → Text → Bool
visible_agree [] a = true
visible_agree (p ∷ ps) [] = true
visible_agree (p ∷ ps) (a ∷ digits) =
    if is_digit p && not (p == a) then false else visible_agree ps digits

abbrev pub before_hyphen : Text → Text
before_hyphen [] = []
before_hyphen (c ∷ s) = if c == b'-' then [] else c ∷ before_hyphen s

abbrev pub with_country : Text → Text
with_country party =
    if has_prefix party (bytes "0")
    then country (drop 1 party)
    else if length party == 9
    then country party
    else party

unfoldable pub phones_compatible : Text → Text → Bool
phones_compatible msisdn debit_party =
    let a = format_phone msisdn in
    let party = keep (λ c. not (c == 32)) (trim_space (before_hyphen debit_party)) in
    if not (length a == 12) || ltb 15 (length msisdn)
    then true
    else if text_eq party []
    then true
    else if not (length (with_country party) == length a)
    then true
    else visible_agree (with_country party) a

abbrev pub amount_agrees : {F : Type 0} → AmountOps F → Option F → ℤ → Bool
amount_agrees ops none a = false
amount_agrees ops (some f) a = ops.is_near f a

unfoldable pub matches : {F : Type 0} → AmountOps F → C2bStatusResult F → C2bTransaction → Agreement
matches ops r l =
    if not (ops.is_zero_code r.result_code)
    then failed_result
    else if not (text_eq r.receipt_no []) && not (equal_fold (trim_space r.receipt_no) l.trans_id)
    then other_receipt
    else if not (equal_fold (trim_space r.transaction_status) (bytes "Completed"))
    then not_completed
    else if not (amount_agrees ops r.amount l.amount)
    then other_amount
    else if not (has_prefix (trim_space r.credit_party_name) (trim_space l.business_short_code))
    then other_shortcode
    else if not (phones_compatible l.msisdn r.debit_party_name)
    then other_payer
    else agrees
