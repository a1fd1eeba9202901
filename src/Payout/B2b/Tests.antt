-- ===== src/Payout/B2b/Tests.antt =====
-- Runs of B2B payouts at concrete values (services/payout.go).
use zyranet_api.Base.{ℕ, ◌≤◌, ◌≡◌, refl, false, true, none, some, List, [], ◌∷◌, arith, ◌==◌}
use zyranet_api.Text.{bytes, text_eq, trim_space, trim_left, trim_right}
use zyranet_api.Mpesa.Creds.{Creds, MpesaConfig, Setting}
use zyranet_api.Mpesa.Routes.{append_callback_token}
use zyranet_api.Payout.Rows.{DestType, Destination, Payment, PayDb, completed}
use zyranet_api.Payout.Samples.{decimals}
use zyranet_api.Payout.States.{PayEnv, new_payout}
use zyranet_api.Payout.Invariant.{IsSound, status_of}
use zyranet_api.Payout.Runs.{give_up}
use zyranet_api.Payout.Settled.{StaysPaid}
use zyranet_api.Payout.B2b.{Outside, Reply, ready, b2b_config, callback_url, b2b_payload, prepare}
use zyranet_api.Payout.B2b.Send.{start_b2b, answered}
use zyranet_api.Json.{text, number, object, Fields, no_fields, field, FloatOps}
use zyranet_api.Payout.B2b.Once.{
  allowed_sends, Courier, SendCall, staff_call, start, finish, result, deliver, deliver_all, sends,
  IsOnce,
}
use zyranet_api.Payout.B2b.Single.{sent_once}
use zyranet_api.Payout.B2b.Final.{deliver_all-StaysPaid}

abbrev env : PayEnv
env = record { now = 5; floats = decimals; fails = λ s. false }

abbrev cfg : MpesaConfig
cfg = record {
  consumer_key = bytes "key";
  consumer_secret = bytes "secret";
  shortcode = bytes "600100";
  passkey = bytes "pass";
  callback_url = bytes "https://api.zyra.example/cb";
  env = bytes "production";
  app_env = bytes "production";
  callback_secret = bytes "s3cret";
}

abbrev creds : Creds
creds = record {
  consumer_key = bytes "key";
  consumer_secret = bytes "secret";
  shortcode = bytes "600100";
  passkey = bytes "pass";
  callback_url = bytes "https://api.zyra.example/cb";
  env = bytes "production";
  billing_type = bytes "paybill";
  till_number = [];
  paybill_number = [];
  paybill_account = [];
  own = false;
  direct_till = [];
  direct_paybill = [];
  direct_account = [];
}

abbrev settings : List Setting
settings =
    record { key = bytes "mpesa_b2b_initiator"; value = some (bytes "zyra") }
    ∷ record { key = bytes "mpesa_b2b_password"; value = some (bytes "pw") }
    ∷ record { key = bytes "mpesa_b2b_cert"; value = some (bytes "cert") }
    ∷ []

-- Stand-ins for encryption, URL parsing and the token.
abbrev out : Outside
out = record {
  encrypt = λ p c. ready p;
  parse_url = λ u. some (record { scheme = bytes "https"; host = bytes "api.zyra.example" });
  token = λ c. some (bytes "token");
}

-- Whole numbers for float64.
abbrev floats : FloatOps ℕ
floats = record { zero_float = 0; is_zero = λ n. n == 0; scan = λ s. none; whole = λ n. [] }

abbrev dest : Destination
dest = record {
  kind = DestType.till;
  till_number = bytes "5123";
  paybill_number = [];
  account = [];
}

abbrev payment : Payment
payment = record {
  id = 1;
  zone_id = 4;
  amount = 5000;
  status = bytes "completed";
  collected_via = bytes "platform";
  payout_id = some 1;
}

abbrev shop : PayDb
shop = record {
  orgs = [];
  zones = [];
  payments = payment ∷ [];
  payouts = record (new_payout 1 1 7 dest) { amount = 47 } ∷ [];
  next_payout = 2;
}

shop-IsSound : IsSound shop
shop-IsSound = record { unique = (refl, tt); below = (omega arith, tt); backed = (refl, tt) }

abbrev queued : Reply
queued = record {
  parsed = true;
  originator_conversation_id = bytes "o-1";
  conversation_id = bytes "c-1";
  response_code = bytes "0";
  response_description = [];
  error_message = [];
}

-- Safaricom's word that the payout went through.
abbrev success : Fields ℕ
success =
    field (bytes "Result")
      (object (
        field (bytes "OriginatorConversationID") (text (bytes "o-1")) (
          field (bytes "ResultCode") (number 0)
            (field (bytes "TransactionID") (text (bytes "QX1")) no_fields))))
      no_fields

-- A refused request, then an accepted one that a second start cannot repeat, and its result twice.
abbrev calls : List (PayEnv × SendCall ℕ)
calls =
    (env, start cfg out creds settings 1 9)
    ∷ (env, finish 1 (answered 400 queued))
    ∷ (env, start cfg out creds settings 1 9)
    ∷ (env, start cfg out creds settings 1 9)
    ∷ (env, finish 1 (answered 200 queued))
    ∷ (env, result success)
    ∷ (env, result success)
    ∷ (env, staff_call (give_up 1))
    ∷ []

abbrev idle : Courier
idle = record { db = shop; in_flight = []; standing = [] }

first_test :
    (deliver_all floats ((env, start cfg out creds settings 1 9) ∷ []) idle).in_flight ≡ 1 ∷ []
unfolding deliver_all deliver start_b2b prepare b2b_config callback_url b2b_payload
    append_callback_token trim_space trim_left trim_right text_eq
first_test = refl

sent_once_example :
    let st = deliver_all floats calls idle in
    IsSound st.db × (sends 1 st ≤ allowed_sends (status_of 1 st.db.payouts))
sent_once_example = sent_once floats calls shop 1 shop-IsSound

-- The same payout, completed, with a late answer still to come.
abbrev paid : Courier
paid = record {
  db = record shop {
    payouts = record (new_payout 1 1 7 dest) { amount = 47; status = completed } ∷ [];
  };
  in_flight = 1 ∷ [];
  standing = [];
}

paid-IsOnce : IsOnce paid
paid-IsOnce = record {
  sound = record { unique = (refl, tt); below = (omega arith, tt); backed = (refl, tt) };
  once = λ i. ground arith;
  gone = λ i h. ground arith;
}

deliver_all-StaysPaid_example : StaysPaid 1 paid.db (deliver_all floats calls paid).db
deliver_all-StaysPaid_example = deliver_all-StaysPaid floats calls 1 paid paid-IsOnce refl
