-- ===== src/Mpesa/C2b/Tests.antt =====
-- Runs of paybill payments at concrete values (handlers/c2b_match.go, services/c2b_verify.go).
use zyranet_api.Base.{ℕ, ◌≡◌, refl, true, false, Bool, none, List, [], ◌∷◌, ◌++◌}
use zyranet_api.Int.{pos}
use zyranet_api.Text.{Text, bytes, text_eq, trim_space, trim_left, trim_right}
use zyranet_api.Text.Cut.{cut_suffix}
use zyranet_api.Utils.Phone.{format_phone}
use zyranet_api.Mpesa.C2b.{
  Payer, Lookup, match_c2b_customer, belongs_to, ambiguous, lookups, fits, in_scope, phone_suffix9,
  C2bTransaction, received, phones_compatible,
}
use zyranet_api.Mpesa.C2b.Sole.{IsSole, match_c2b_customer-IsSole}
use zyranet_api.Mpesa.C2b.Park.{
  C2bDb, C2bStmt, park_all, park_c2b, c2b_already_recorded, park_c2b_records,
}

abbrev payer : ℕ → ℕ → Text → Text → Payer
payer id zone_id account phone = record {
  id = id;
  zone_id = zone_id;
  account_number = account;
  pppoe_username = none;
  phone = phone;
}

abbrev jane : Payer
jane = payer 1 4 (bytes "ZN001") (bytes "254712345678")

abbrev payers : List Payer
payers =
    jane
    ∷ payer 2 4 (bytes "ZN002") (bytes "254700000001")
    ∷ payer 3 5 (bytes "ZN003") (bytes "254700000001")
    ∷ []

abbrev fine : Lookup → Bool
fine _ = false

by_phone_test :
    match_c2b_customer fine [] payers none (bytes "0712 345-678") (bytes "hash") ≡ belongs_to jane
unfolding match_c2b_customer lookups fits in_scope phone_suffix9 cut_suffix text_eq trim_space
    trim_left trim_right
by_phone_test = refl

shared_phone_test : match_c2b_customer fine [] payers none (bytes "254700000001") [] ≡ ambiguous
unfolding match_c2b_customer lookups fits in_scope phone_suffix9 cut_suffix text_eq trim_space
    trim_left trim_right
shared_phone_test = refl

match_c2b_customer-IsSole_example :
    IsSole fine [] none payers jane (lookups (bytes "0712 345-678") (bytes "hash"))
match_c2b_customer-IsSole_example =
    match_c2b_customer-IsSole fine [] payers none (bytes "0712 345-678") (bytes "hash") jane
      by_phone_test

phones_test :
    phones_compatible (bytes "254712345678") (bytes "254712345678" ++ 32 ∷ b'-' ∷ bytes " JANE DOE")
    ≡ true
unfolding phones_compatible format_phone text_eq trim_space trim_left trim_right
phones_test = refl

masked_test : phones_compatible (bytes "254712345678") (bytes "2547*****679 - JANE DOE") ≡ false
unfolding phones_compatible format_phone text_eq trim_space trim_left trim_right
masked_test = refl

twelve_test : format_phone (bytes "254712345678") ≡ bytes "254712345678"
unfolding format_phone
twelve_test = refl

abbrev confirmation : C2bTransaction
confirmation = record {
  id = 7;
  trans_id = bytes "QX1";
  amount = pos 5000;
  business_short_code = bytes "600100";
  bill_ref_number = bytes "ZN001";
  msisdn = bytes "254712345678";
  first_name = bytes "JANE";
  middle_name = [];
  last_name = bytes "DOE";
  status = received;
  verify_note = [];
  updated_at = 3;
}

abbrev db : C2bDb
db = record { transactions = confirmation ∷ []; unmatched = []; receipts = [] }

abbrev works : C2bStmt → Bool
works _ = false

-- Another confirmation is parked behind the first.
abbrev later_calls : List ((ℕ × (C2bStmt → Bool)) × (C2bTransaction × Text))
later_calls = ((10, works), (record confirmation { id = 2; trans_id = bytes "QX2" }, [])) ∷ []

park_c2b_records_example :
    (c2b_already_recorded 12 works
        (bytes "QX1")
        (park_all later_calls (park_c2b 9 works confirmation (bytes "no answer") db))
      ≡ true)
    × (park_c2b 12 works confirmation
          (bytes "again")
          (park_c2b 9 works confirmation (bytes "no answer") db)
        ≡ park_c2b 9 works confirmation (bytes "no answer") db)
park_c2b_records_example =
    park_c2b_records 9 12 works works confirmation (bytes "no answer") (bytes "again") later_calls
      db refl refl refl refl
