-- ===== src/Mpesa/Creds.antt =====
-- Which Daraja app a payment of a zone goes through (services/mpesa.go: `mpesaCreds`,
-- `normalizeBillingType`, `resolveMpesaCreds`, `withDirectSettlement`, `OrgForShortcode`,
-- `queryMpesaSettingsMap`, `getSettingFromMap`; models/organization_mpesa_config.go,
-- models/setting.go).
pub mod Laws
use zyranet_api.Base.{
  ℕ, Bool, true, false, not, ◌&&◌, ◌||◌, Option, none, some, List, [], ◌∷◌, ◌==◌, if◌then◌else◌,
  find_first,
}
use zyranet_api.Text.{Text, bytes, text_eq, trim_space, is_space}
use zyranet_api.Text.Cut.{keep, equal_fold, has_text}
use zyranet_api.Models.{Zone}
use zyranet_api.Payout.Rows.{Organization}

pub record Creds : Type 0 where
  pub consumer_key : Text
  pub consumer_secret : Text
  pub shortcode : Text
  pub passkey : Text
  pub callback_url : Text
  pub env : Text
  pub billing_type : Text
  pub till_number : Text
  pub paybill_number : Text
  pub paybill_account : Text
  pub own : Bool
  pub direct_till : Text
  pub direct_paybill : Text
  pub direct_account : Text

-- The part of the server's configuration that payments read.
pub record MpesaConfig : Type 0 where
  pub consumer_key : Text
  pub consumer_secret : Text
  pub shortcode : Text
  pub passkey : Text
  pub callback_url : Text
  pub env : Text
  pub app_env : Text
  pub callback_secret : Text

pub record Setting : Type 0 where
  pub key : Text
  pub value : Option Text

-- An ISP's own Daraja app.
pub record OrgMpesaConfig : Type 0 where
  pub org_id : ℕ
  pub mode : Text
  pub consumer_key : Text
  pub consumer_secret : Text
  pub shortcode : Text
  pub passkey : Text
  pub callback_url : Text
  pub env : Text
  pub billing_type : Text
  pub till_number : Text
  pub paybill_number : Text
  pub paybill_account : Text

pub record CredsDb : Type 0 where
  pub settings : List Setting
  pub zones : List Zone
  pub configs : List OrgMpesaConfig
  pub orgs : List Organization

abbrev pub is_empty : Text → Bool
is_empty s = text_eq s []

unfoldable pub normalize_billing_type : Text → Text
normalize_billing_type t =
    if equal_fold (trim_space t) (bytes "till") then bytes "till" else bytes "paybill"

-- A map of settings as a list; a later row replaces an earlier one.
abbrev pub put : Text → Text → List (Text × Text) → List (Text × Text)
put k v [] = (k, v) ∷ []
put k v ((j, w) ∷ m) = if text_eq j k then (k, v) ∷ m else (j, w) ∷ put k v m

abbrev pub get : Text → List (Text × Text) → Option Text
get k [] = none
get k ((j, v) ∷ m) = if text_eq j k then some v else get k m

abbrev pub setting_keys : List Text
setting_keys =
    bytes "mpesa_consumer_key"
    ∷ bytes "mpesa_consumer_secret"
    ∷ bytes "mpesa_shortcode"
    ∷ bytes "mpesa_passkey"
    ∷ bytes "mpesa_callback_url"
    ∷ bytes "mpesa_environment"
    ∷ bytes "mpesa_billing_type"
    ∷ bytes "mpesa_till_number"
    ∷ bytes "mpesa_paybill_number"
    ∷ bytes "mpesa_paybill_account"
    ∷ []

abbrev pub add_setting : Setting → List (Text × Text) → List (Text × Text)
add_setting s m = elim s.value [
  | none ↦ m
  | some v ↦
      let clean = keep (λ c. not (is_space c)) v in
      if has_text s.key setting_keys && not (is_empty clean) then put s.key clean m else m
]

abbrev pub add_settings : List Setting → List (Text × Text) → List (Text × Text)
add_settings [] m = m
add_settings (s ∷ ss) m = add_settings ss (add_setting s m)

-- A query that fails gives no settings.
unfoldable pub query_settings : Bool → List Setting → List (Text × Text)
query_settings failing settings = if failing then [] else add_settings settings []

abbrev pub non_empty_or : Option Text → Text → Text
non_empty_or none default = trim_space default
non_empty_or (some v) default = if is_empty v then trim_space default else v

unfoldable pub get_setting : List (Text × Text) → Text → Text → Text
get_setting m key default = non_empty_or (get key m) default

unfoldable pub platform_creds : MpesaConfig → List (Text × Text) → Creds
platform_creds cfg m = record {
  consumer_key = get_setting m (bytes "mpesa_consumer_key") cfg.consumer_key;
  consumer_secret = get_setting m (bytes "mpesa_consumer_secret") cfg.consumer_secret;
  shortcode = get_setting m (bytes "mpesa_shortcode") cfg.shortcode;
  passkey = get_setting m (bytes "mpesa_passkey") cfg.passkey;
  callback_url = get_setting m (bytes "mpesa_callback_url") cfg.callback_url;
  env = get_setting m (bytes "mpesa_environment") cfg.env;
  billing_type =
      normalize_billing_type (get_setting m (bytes "mpesa_billing_type") (bytes "paybill"));
  till_number = get_setting m (bytes "mpesa_till_number") [];
  paybill_number = get_setting m (bytes "mpesa_paybill_number") [];
  paybill_account = get_setting m (bytes "mpesa_paybill_account") [];
  own = false;
  direct_till = [];
  direct_paybill = [];
  direct_account = [];
}

-- The ISP's own app alone: only a blank callback URL is the platform's.
unfoldable pub own_creds : Creds → OrgMpesaConfig → Creds
own_creds platform o = record {
  consumer_key = trim_space o.consumer_key;
  consumer_secret = trim_space o.consumer_secret;
  shortcode = trim_space o.shortcode;
  passkey = trim_space o.passkey;
  callback_url =
      if is_empty (trim_space o.callback_url)
      then platform.callback_url
      else trim_space o.callback_url;
  env = if is_empty (trim_space o.env) then bytes "sandbox" else trim_space o.env;
  billing_type = normalize_billing_type o.billing_type;
  till_number = trim_space o.till_number;
  paybill_number = trim_space o.paybill_number;
  paybill_account = trim_space o.paybill_account;
  own = true;
  direct_till = [];
  direct_paybill = [];
  direct_account = [];
}

abbrev pub settle_directly : Creds → Option Organization → Creds
settle_directly c none = c
settle_directly c (some org) =
    let till = trim_space org.settlement_till in
    let paybill = trim_space org.settlement_paybill in
    let account = trim_space org.settlement_account in
    if not org.direct_settlement
    then c
    else if text_eq org.settlement_type (bytes "till") && not (is_empty till)
    then record c { direct_till = till }
    else if text_eq org.settlement_type (bytes "paybill")
        && not (is_empty paybill)
        && not (is_empty account)
    then record c { direct_paybill = paybill; direct_account = account }
    else c

pub data CredsStmt : Type 0 where
  find_settings find_zone find_config find_org : CredsStmt

-- A query that fails reads as a row that is not there.
abbrev pub unless : {A : Type 0} → Bool → Option A → Option A
unless failing o = if failing then none else o

abbrev pub is_own_config : ℕ → OrgMpesaConfig → Bool
is_own_config org_id o = o.org_id == org_id && text_eq o.mode (bytes "own")

module _ (cfg : MpesaConfig) (fails : CredsStmt → Bool) where
  abbrev pub for_org : Creds → CredsDb → ℕ → Creds
  for_org platform db org_id =
      elim (unless (fails find_config) (find_first (is_own_config org_id) db.configs)) [
        | some o ↦ own_creds platform o
        | none ↦
            settle_directly platform
              (unless (fails find_org) (find_first (λ o. o.id == org_id) db.orgs))
      ]

  -- The credentials of a zone, from settings that were read before; zone 0 is the platform.
  unfoldable pub resolve_with : List (Text × Text) → CredsDb → ℕ → Creds
  resolve_with m db zone_id =
      let platform = platform_creds cfg m in
      if zone_id == 0
      then platform
      else elim (unless (fails find_zone) (find_first (λ z. z.id == zone_id) db.zones)) [
        | none ↦ platform
        | some z ↦ for_org platform db z.org_id
      ]

  unfoldable pub resolve : CredsDb → ℕ → Creds
  resolve db zone_id = resolve_with (query_settings (fails find_settings) db.settings) db zone_id

abbrev pub claims_code : Text → OrgMpesaConfig → Bool
claims_code code o =
    text_eq o.mode (bytes "own")
    && (text_eq o.shortcode code || text_eq o.till_number code || text_eq o.paybill_number code)

-- The ISP whose own app a shortcode belongs to; `failing` is the query's error.
unfoldable pub org_for_shortcode : Bool → CredsDb → Text → Option ℕ
org_for_shortcode failing db raw =
    let code = trim_space raw in
    if is_empty code
    then none
    else elim (unless failing (find_first (claims_code code) db.configs)) [
      | none ↦ none
      | some o ↦ some o.org_id
    ]
