-- ===== src/Voucher/Tests.antt =====
-- Runs of redemptions at concrete values (services/voucher.go).
use zyranet_api.Base.{List, suc, ◌≡◌, refl, false, none, [], ◌∷◌}
use zyranet_api.Int.{pos, ◌+ℤ◌}
use zyranet_api.Text.{Text, bytes, text_eq, trim_space, trim_left, trim_right, to_upper}
use zyranet_api.Models.{Voucher, VoucherStatus, Package}
use zyranet_api.Ledger.Tx.{Db}
use zyranet_api.Utils.Expiry.{calculate_voucher_expiry, calculate_expiry}
use zyranet_api.Voucher.Redeem.{
  RedeemEnv, Redeemed, granted, denied, unusable, redeem, mark_agent_voucher_sold, guest,
}
use zyranet_api.Voucher.Spent.{redeem_all, redeem_spent}

abbrev env : RedeemEnv
env = record { now = 5; add_month = λ t. suc t; fails = λ s. false }

abbrev plan : Package
plan = record {
  id = 9;
  zone_id = 4;
  name = [];
  price = pos 5000;
  is_free_tier = false;
  time_limit_minutes = none;
  billing_cycle = bytes "monthly";
  status = bytes "active";
}

abbrev voucher : Voucher
voucher = record {
  id = 3;
  code = bytes "ABC";
  zone_id = 4;
  package_id = 9;
  kind = bytes "single_use";
  usage_limit = none;
  usage_count = pos 0;
  status = VoucherStatus.unused;
  used_by = none;
  expires_at = none;
}

abbrev db : Db
db = record {
  agents = [];
  zones = [];
  packages = plan ∷ [];
  customers = [];
  vouchers = voucher ∷ [];
  batches = [];
  agent_vouchers = [];
  entries = [];
  keys = [];
  next_customer = 1;
  next_voucher = 4;
  next_batch = 1;
  next_agent_voucher = 1;
  next_entry = 1;
}

abbrev phone : Text
phone = bytes "254712345678"

abbrev done : Redeemed
done = record {
  voucher = record voucher { usage_count = pos 1; status = VoucherStatus.depleted };
  customer = guest env voucher plan phone 1;
  plan = plan;
}

abbrev after : Db
after = (redeem env (bytes " abc ") phone db).1

redeem_test : redeem env (bytes " abc ") phone db ≡ (granted done, after)
unfolding redeem text_eq trim_space trim_left trim_right to_upper ◌+ℤ◌ mark_agent_voucher_sold
    calculate_voucher_expiry calculate_expiry
redeem_test = refl

-- Somebody tries the code, and a code that is not there.
abbrev tries : List (RedeemEnv × Text × Text)
tries = (env, bytes "abc", bytes "0711") ∷ (env, bytes "none", phone) ∷ []

redeem_spent_example :
    redeem env (bytes " abc ") (bytes "0700") (redeem_all tries after)
    ≡ (denied unusable, redeem_all tries after)
redeem_spent_example =
    redeem_spent env env (bytes " abc ") phone (bytes "0700") db after done tries refl redeem_test
      refl refl
