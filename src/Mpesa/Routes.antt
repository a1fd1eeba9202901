-- ===== src/Mpesa/Routes.antt =====
-- Where the money of a payment settles, and what the customer and the books are told of it
-- (services/mpesa.go: the methods of `mpesaCreds`, `paybillFor`, `GetPaymentInfo`, `getBaseURL`,
-- `CollectionChannel`, `PlatformIsProduction`, `sanitizeAccountReference`,
-- `sanitizeTransactionDesc`, `appendCallbackToken`).
pub mod Laws
use zyranet_api.Base.{ℕ, Bool, not, ◌&&◌, ◌||◌, List, [], ◌∷◌, ◌++◌, leb, if◌then◌else◌}
use zyranet_api.Text.{Text, bytes, text_eq, to_lower, to_upper}
use zyranet_api.Text.Cut.{take, has_prefix, contains, keep, is_digit}
use zyranet_api.Mpesa.Creds.{Creds, MpesaConfig, is_empty}

unfoldable pub direct : Creds → Bool
direct c = not (is_empty c.direct_till) || not (is_empty c.direct_paybill)

abbrev pub missing_if : Bool → Text → List Text → List Text
missing_if c name names = if c then name ∷ names else names

-- What an own app still needs before it can collect.
unfoldable pub missing_fields : Creds → List Text
missing_fields c = missing_if (is_empty c.consumer_key) (bytes "consumer key") (
    missing_if (is_empty c.consumer_secret) (bytes "consumer secret") (
      missing_if (is_empty c.shortcode) (bytes "shortcode") (
        missing_if (is_empty c.passkey) (bytes "passkey") (
          missing_if (text_eq c.billing_type (bytes "till") && is_empty c.till_number)
            (bytes "till number") []))))

unfoldable pub mock_allowed : MpesaConfig → Creds → Bool
mock_allowed cfg c =
    not c.own || text_eq cfg.app_env (bytes "local") || text_eq cfg.app_env (bytes "test")

pub data TransactionType : Type 0 where
  buy_goods pay_bill : TransactionType

pub record StkRoute : Type 0 where
  pub kind : TransactionType
  pub party_b : Text

-- Where an STK push settles.
unfoldable pub route : Creds → StkRoute
route c =
    if not (is_empty c.direct_till)
    then record { kind = buy_goods; party_b = c.direct_till }
    else if not (is_empty c.direct_paybill)
    then record { kind = pay_bill; party_b = c.direct_paybill }
    else if text_eq c.billing_type (bytes "till")
        && not (is_empty c.till_number)
        && not (text_eq c.till_number c.shortcode)
    then record { kind = buy_goods; party_b = c.till_number }
    else record { kind = pay_bill; party_b = c.shortcode }

unfoldable pub c2b_shortcode : Creds → Text
c2b_shortcode c =
    if text_eq c.billing_type (bytes "till") && not (is_empty c.till_number)
    then c.till_number
    else if not (is_empty c.shortcode)
    then c.shortcode
    else c.paybill_number

unfoldable pub paybill_for : Creds → Text
paybill_for c =
    if not (is_empty c.shortcode)
    then c.shortcode
    else if not (is_empty c.paybill_number)
    then c.paybill_number
    else if c.own
    then []
    else bytes "7289306"

pub record PaymentInfo : Type 0 where
  pub billing_type : Text
  pub paybill : Text
  pub till : Text

unfoldable pub payment_info : Creds → PaymentInfo
payment_info c =
    if not (is_empty c.direct_till)
    then record { billing_type = bytes "till"; paybill = []; till = c.direct_till }
    else if not (is_empty c.direct_paybill)
    then record { billing_type = bytes "paybill"; paybill = c.direct_paybill; till = [] }
    else if text_eq c.billing_type (bytes "till") && not (is_empty c.till_number)
    then record { billing_type = bytes "till"; paybill = paybill_for c; till = c.till_number }
    else record { billing_type = bytes "paybill"; paybill = paybill_for c; till = [] }

unfoldable pub is_production : Creds → Bool
is_production c = text_eq (to_lower c.env) (bytes "production")

unfoldable pub base_url : Text → Creds → Text
base_url override c =
    if not (is_empty override)
    then override
    else if is_production c
    then bytes "https://api.safaricom.co.ke"
    else bytes "https://sandbox.safaricom.co.ke"

-- Where the money of a payment landed: the values of `collected_via`.
pub data Channel : Type 0 where
  not_real own_app direct_to_isp shared_shortcode : Channel

unfoldable pub channel_text : Channel → Text
channel_text not_real = []
channel_text own_app = bytes "own"
channel_text direct_to_isp = bytes "direct"
channel_text shared_shortcode = bytes "platform"

unfoldable pub collection_channel : Creds → Text → Channel
collection_channel c receipt =
    if has_prefix (to_upper receipt) (bytes "MOCK")
    then not_real
    else if c.own
    then own_app
    else if direct c
    then direct_to_isp
    else if not (is_production c)
    then not_real
    else shared_shortcode

abbrev pub is_alphanumeric : ℕ → Bool
is_alphanumeric c = leb b'a' c && leb c b'z' || leb b'A' c && leb c b'Z' || is_digit c

abbrev pub sanitize : ℕ → Text → Text → Text
sanitize limit default raw =
    let res = take limit (keep is_alphanumeric raw) in if is_empty res then default else res

unfoldable pub sanitize_account_reference : Text → Text
sanitize_account_reference raw = sanitize 12 (bytes "ZyraNet") raw

unfoldable pub sanitize_transaction_desc : Text → Text
sanitize_transaction_desc raw = sanitize 13 (bytes "Internet") raw

unfoldable pub append_callback_token : MpesaConfig → Text → Text
append_callback_token cfg url =
    if is_empty url || contains url (bytes "token=")
    then url
    else url
      ++ (if contains url (bytes "?") then bytes "&" else bytes "?")
      ++ bytes "token="
      ++ cfg.callback_secret
