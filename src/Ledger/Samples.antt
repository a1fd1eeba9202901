-- ===== src/Ledger/Samples.antt =====
-- Sample rows and environments for the tests of the ledger.
use zyranet_api.Base.{ℕ, false, none, some, [], ◌∷◌}
use zyranet_api.Int.{pos}
use zyranet_api.Text.{Text, bytes, decimal}
use zyranet_api.Models.{Zone, Package}
use zyranet_api.Ledger.Rows.{Agent, IdemKey}
use zyranet_api.Ledger.Tx.{Db, Env}
use zyranet_api.Ledger.Idempotency.{Actor}

abbrev pub env : Env
env = record {
  now = 9;
  fails = λ s. false;
  draw = λ i attempt. some (b'V' ∷ decimal i);
  sha256 = λ t. t;
  others = λ db. db;
}

abbrev pub owner : Actor
owner = record { org_id = 1; user_id = 7; role = bytes "super_admin" }

abbrev pub reseller : Agent
reseller = record {
  id = 2;
  org_id = 1;
  commission_type = bytes "percent";
  commission_value = pos 1000;
  credit_limit = pos 50_000;
  status = bytes "active";
  zones = 4 ∷ [];
}

abbrev pub zone : Zone
zone = record {
  id = 4;
  org_id = 1;
  name = bytes "Town";
  status = bytes "active";
  last_seen_at = none;
  last_status = [];
  router_ip = [];
  public_ip = [];
  router_name = [];
}

abbrev pub hourly : Package
hourly = record {
  id = 6;
  zone_id = 4;
  name = bytes "Hour";
  price = pos 1000;
  is_free_tier = false;
  time_limit_minutes = some (pos 60);
  billing_cycle = bytes "hourly";
  status = bytes "active";
}

abbrev pub shop : Db
shop = record {
  agents = reseller ∷ [];
  zones = zone ∷ [];
  packages = hourly ∷ [];
  customers = [];
  vouchers = [];
  batches = [];
  agent_vouchers = [];
  entries = [];
  keys = [];
  next_customer = 1;
  next_voucher = 1;
  next_batch = 1;
  next_agent_voucher = 1;
  next_entry = 1;
}

-- The key's row that a request of the reseller stores.
abbrev pub key_row : Text → Text → Text → ℕ → IdemKey
key_row key op hash result = record {
  org_id = 1;
  key = key;
  agent_id = 2;
  operation = op;
  hash = hash;
  result = result;
  created_at = 9;
}
