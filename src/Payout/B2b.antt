-- ===== src/Payout/B2b.antt =====
-- The request of a payout over M-Pesa B2B and what Safaricom's answer to it means
-- (services/payout.go: `b2bConfig`, `b2bPayload`, `classifyB2BResponse`, `payoutCallbackURL`, and
-- the part of `SendB2B` in front of its first write). RSA encryption, URL parsing, the Daraja token
-- and the HTTP exchange are parameters.
pub mod Send
pub mod Result
pub mod Relabel
pub mod Sound
pub mod Steps
pub mod Once
pub mod Starts
pub mod Single
pub mod Final
mod Tests
use zyranet_api.Base.{
  ℕ, Bool, not, ◌&&◌, ◌||◌, Option, none, some, List, [], ◌∷◌, ◌++◌, leb, ltb, if◌then◌else◌,
  find_first,
}
use zyranet_api.Text.{Text, bytes, text_eq, trim_space, decimal}
use zyranet_api.Text.Cut.{has_prefix}
use zyranet_api.Mpesa.Creds.{Creds, MpesaConfig, Setting, is_empty}
use zyranet_api.Mpesa.Routes.{append_callback_token, missing_if}
use zyranet_api.Payout.Rows.{DestType, Payout}

pub data SendError : Type 0 where
  payout_gone not_pending database_failed app_not_configured secret_missing no_public_url :
      SendError
  no_token mock_credentials outcome_unknown : SendError
  b2b_not_configured : (missing : List Text) → SendError
  bad_certificate : (why : Text) → SendError
  request_not_built : (why : Text) → SendError
  rejected : (msg : Text) → SendError

pub data SendResult (A : Type 0) : Type 0 where
  ready : A → SendResult A
  stopped : SendError → SendResult A

pub record B2bConfig : Type 0 where
  pub initiator : Text
  pub password : Text
  pub cert_pem : Text

abbrev pub value_of : Option Setting → Text
value_of none = []
value_of (some s) = elim s.value [ none ↦ [] | some v ↦ trim_space v ]

abbrev pub setting_value : Bool → List Setting → Text → Text
setting_value failing settings key =
    if failing then [] else value_of (find_first (λ s. text_eq s.key key) settings)

unfoldable pub b2b_config : Bool → List Setting → SendResult B2bConfig
b2b_config failing settings =
    let c : B2bConfig = record {
      initiator = setting_value failing settings (bytes "mpesa_b2b_initiator");
      password = setting_value failing settings (bytes "mpesa_b2b_password");
      cert_pem = setting_value failing settings (bytes "mpesa_b2b_cert");
    } in
    let missing = missing_if (is_empty c.initiator) (bytes "initiator name") (
      missing_if (is_empty c.password) (bytes "initiator password")
        (missing_if (is_empty c.cert_pem) (bytes "Safaricom certificate") [])) in
    elim missing [ [] ↦ ready c | m ∷ ms ↦ stopped (b2b_not_configured (m ∷ ms)) ]

-- What the code calls outside the repository, and the Daraja token (none on an error).
pub record Url : Type 0 where
  pub scheme : Text
  pub host : Text

pub record Outside : Type 0 where
  pub encrypt : Text → Text → SendResult Text
  pub parse_url : Text → Option Url
  pub token : Creds → Option Text

unfoldable pub callback_url : MpesaConfig → Outside → Text → Text → SendResult Text
callback_url cfg out stk_url path =
    if is_empty cfg.callback_secret
    then stopped secret_missing
    else elim (out.parse_url (trim_space stk_url)) [
      | none ↦ stopped no_public_url
      | some u ↦
          if is_empty u.host || not (text_eq u.scheme (bytes "https"))
          then stopped no_public_url
          else ready (
              append_callback_token cfg
                (u.scheme ++ bytes "://" ++ u.host ++ bytes "/api/v1/payouts/b2b/" ++ path))
    ]

-- A JSON object of texts.
abbrev pub Payload : Type 0
Payload = List (Text × Text)

abbrev pub command_of : DestType → Text
command_of DestType.till = bytes "BusinessBuyGoods"
command_of DestType.paybill = bytes "BusinessPayBill"

abbrev pub party_of : Payout → Text
party_of p = elim p.dest.kind [
  | DestType.till ↦ p.dest.till_number
  | DestType.paybill ↦ p.dest.paybill_number
]

abbrev pub account_of : Payout → Text
account_of p = elim p.dest.kind [ DestType.till ↦ [] | DestType.paybill ↦ p.dest.account ]

unfoldable pub b2b_payload : Payout → Text → Text → Text → Text → Text → Payload
b2b_payload p initiator credential party_a result_url timeout_url =
    (bytes "Initiator", initiator)
    ∷ (bytes "SecurityCredential", credential)
    ∷ (bytes "CommandID", command_of p.dest.kind)
    ∷ (bytes "SenderIdentifierType", bytes "4")
    ∷ (bytes "RecieverIdentifierType", bytes "4")
    ∷ (bytes "Amount", decimal p.amount)
    ∷ (bytes "PartyA", party_a)
    ∷ (bytes "PartyB", party_of p)
    ∷ (bytes "Remarks", bytes "Zyra Net payout " ++ decimal p.id)
    ∷ (bytes "QueueTimeOutURL", timeout_url)
    ∷ (bytes "ResultURL", result_url)
    ∷ (if is_empty (account_of p) then [] else (bytes "AccountReference", account_of p) ∷ [])

pub data Outcome : Type 0 where
  accepted turned_down unknown : Outcome

-- The fields of a reply that JSON decoding filled in, and whether it failed.
pub record Reply : Type 0 where
  pub parsed : Bool
  pub originator_conversation_id : Text
  pub conversation_id : Text
  pub response_code : Text
  pub response_description : Text
  pub error_message : Text

pub record Verdict : Type 0 where
  pub outcome : Outcome
  pub originator_id : Text
  pub conversation_id : Text
  pub msg : Text

abbrev pub http_ok : ℕ → Bool
http_ok status = leb 200 status && ltb status 300

unfoldable pub classify_b2b_response : ℕ → Reply → Verdict
classify_b2b_response status r =
    let msg = if is_empty r.response_description then r.error_message else r.response_description in
    if http_ok status
      && r.parsed
      && text_eq r.response_code (bytes "0")
      && not (is_empty r.originator_conversation_id)
    then record {
      outcome = accepted;
      originator_id = r.originator_conversation_id;
      conversation_id = r.conversation_id;
      msg = msg;
    }
    else if http_ok status
        && r.parsed
        && not (is_empty r.response_code)
        && not (text_eq r.response_code (bytes "0"))
    then record { outcome = turned_down; originator_id = []; conversation_id = []; msg = msg }
    else if leb 400 status && ltb status 500
    then record {
      outcome = turned_down;
      originator_id = [];
      conversation_id = [];
      msg =
          if is_empty msg
          then bytes "Daraja rejected the request (HTTP " ++ decimal status ++ bytes ")"
          else msg;
    }
    else record { outcome = unknown; originator_id = []; conversation_id = []; msg = msg }

-- Everything a request needs, before anything is written.
pub record Ready : Type 0 where
  pub config : B2bConfig
  pub credential : Text
  pub creds : Creds
  pub result_url : Text
  pub timeout_url : Text
  pub token : Text

abbrev pub url_or_blank : SendResult Text → Text
url_or_blank (ready u) = u
url_or_blank (stopped e) = []

module _ (cfg : MpesaConfig) (out : Outside) (creds : Creds) where
  abbrev pub with_token : B2bConfig → Text → Text → Option Text → SendResult Ready
  with_token c credential result_url none = stopped no_token
  with_token c credential result_url (some token) =
      if has_prefix token (bytes "mock_token")
      then stopped mock_credentials
      else ready (record {
        config = c;
        credential = credential;
        creds = creds;
        result_url = result_url;
        timeout_url = url_or_blank (callback_url cfg out creds.callback_url (bytes "timeout"));
        token = token;
      })

  abbrev pub with_url : B2bConfig → Text → SendResult Text → SendResult Ready
  with_url c credential (stopped e) = stopped e
  with_url c credential (ready u) = with_token c credential u (out.token creds)

  abbrev pub with_credential : B2bConfig → SendResult Text → SendResult Ready
  with_credential c (stopped e) = stopped e
  with_credential c (ready credential) =
      if is_empty creds.consumer_key
        || text_eq creds.consumer_key (bytes "mock_consumer_key")
        || is_empty creds.shortcode
      then stopped app_not_configured
      else with_url c credential (callback_url cfg out creds.callback_url (bytes "result"))

  abbrev pub with_config : SendResult B2bConfig → SendResult Ready
  with_config (stopped e) = stopped e
  with_config (ready c) = with_credential c (out.encrypt c.password c.cert_pem)

  -- What `SendB2B` checks before it writes.
  unfoldable pub prepare : Bool → List Setting → SendResult Ready
  prepare failing settings = with_config (b2b_config failing settings)
