-- ===== src/Ledger/Idempotency.antt =====
-- Requests under an idempotency key (services/agent_ledger.go: `ValidIdempotencyKey`, `lockAgent`,
-- `requestHash`, `replayed`, `saveKey`, `runIdempotent`, `ledgerTx`).
pub mod Laws
use zyranet_api.Base.{
  ℕ, ◌+◌, Bool, true, false, ◌&&◌, ◌||◌, Option, none, some, List, [], ◌∷◌, ◌++◌, ◌==◌, leb, ltb,
  if◌then◌else◌, length, find_first, exists_where,
}
use zyranet_api.Text.{Text, Part, text_eq, sprint, bytes}
use zyranet_api.Ledger.Rows.{Agent, IdemKey}
use zyranet_api.Ledger.Tx.{
  Db, Env, Result, ok, err, refused, fault, Tx, pure, gets, or_fail, fail, fail_if, modify,
  lock_agent, find_key, find_key_again, save_key, commit, bad_key, agent_not_found, key_reused,
  ◌>>=◌, ◌>>◌,
}

-- Who is acting, from the session.
pub record Actor : Type 0 where
  pub org_id : ℕ
  pub user_id : ℕ
  pub role : Text

unfoldable pub is_owner : Actor → Bool
is_owner a = text_eq a.role (bytes "super_admin")

is_key_byte : ℕ → Bool
is_key_byte c =
    leb b'a' c && leb c b'z'
    || leb b'A' c && leb c b'Z'
    || leb b'0' c && leb c b'9'
    || c == b'-'
    || c == b'_'

all_key_bytes : Text → Bool
all_key_bytes [] = true
all_key_bytes (c ∷ s) = is_key_byte c && all_key_bytes s

-- 8 to 64 letters, digits, dashes or underscores.
unfoldable pub valid_idempotency_key : Text → Bool
unfolding all_key_bytes is_key_byte
valid_idempotency_key key =
    if ltb (length key) 8 || ltb 64 (length key) then false else all_key_bytes key

unfoldable pub request_hash : Env → List Part → Text
request_hash env parts = env.sha256 (sprint parts)

abbrev pub is_agent : ℕ → ℕ → Agent → Bool
is_agent org_id agent_id a = a.id == agent_id && a.org_id == org_id

-- The row lock orders the money writes of one agent; here a transaction is one step.
unfoldable pub lock : Env → ℕ → ℕ → Tx Agent
lock env org_id agent_id = do
  fail_if (env.fails lock_agent) fault
  or_fail (← gets (λ db. find_first (is_agent org_id agent_id) db.agents)) (refused agent_not_found)

abbrev pub is_key : ℕ → Text → IdemKey → Bool
is_key org_id key k = k.org_id == org_id && text_eq k.key key

abbrev pub same_request : Text → ℕ → Text → IdemKey → Bool
same_request op agent_id hash k =
    text_eq k.operation op && k.agent_id == agent_id && text_eq k.hash hash

-- What a row found under the key says: nothing yet, the first result, or another request's key.
abbrev pub replay_of : Option IdemKey → Text → ℕ → Text → Tx (Option ℕ)
replay_of none op agent_id hash = pure none
replay_of (some k) op agent_id hash =
    if same_request op agent_id hash k then pure (some k.result) else fail (refused key_reused)

-- `failing` says whether the query fails.
unfoldable pub replayed : Bool → ℕ → Text → Text → ℕ → Text → Tx (Option ℕ)
replayed failing org_id key op agent_id hash = do
  fail_if failing fault
  replay_of (← gets (λ db. find_first (is_key org_id key) db.keys)) op agent_id hash

abbrev pub append_key : IdemKey → Db → Db
append_key k db = record db { keys = db.keys ++ k ∷ [] }

-- INSERT under the unique index on organization and key.
unfoldable pub save : Env → ℕ → Text → Text → ℕ → Text → ℕ → Tx (Unit {0})
save env org_id key op agent_id hash result = do
  fail_if (env.fails save_key) fault
  fail_if (← gets (λ db. exists_where (is_key org_id key) db.keys)) fault
  modify (
      append_key (record {
        org_id = org_id;
        key = key;
        agent_id = agent_id;
        operation = op;
        hash = hash;
        result = result;
        created_at = env.now;
      }))

pub record Done : Type 0 where
  pub result : ℕ
  pub replay : Bool

abbrev pub first_time : ℕ → Done
first_time id = record { result = id; replay = false }

abbrev pub again : ℕ → Done
again id = record { result = id; replay = true }

module _ (env : Env) (actor : Actor) (agent_id : ℕ) (key op hash : Text) (body : Agent → Tx ℕ) where
  -- The rest of the transaction, on what the key's lookup gave.
  abbrev pub unless_done : Agent → Option ℕ → Tx Done
  unless_done agent (some id) = pure (again id)
  unless_done agent none = do
    id ← body agent
    save env actor.org_id key op agent_id hash id
    pure (first_time id)

  unfoldable pub transaction : Tx Done
  transaction = do
    agent ← lock env actor.org_id agent_id
    found ← replayed (env.fails find_key) actor.org_id key op agent_id hash
    done ← unless_done agent found
    fail_if (env.fails commit) fault
    pure done

  -- Whether another request won the race for the key.
  abbrev pub after_race : Result (Option ℕ × Db) → Db → Result Done × Db
  after_race (ok (some id, _)) db = (ok (again id), db)
  after_race _ db = (err fault, db)

  -- A failed transaction leaves the database to what others did meanwhile.
  abbrev pub settle : Result (Done × Db) → Db → Result Done × Db
  settle (ok (done, db')) db = (ok done, db')
  settle (err (refused r)) db = (err (refused r), db)
  settle (err fault) db =
      let later = env.others db in
      after_race (replayed (env.fails find_key_again) actor.org_id key op agent_id hash later) later

  unfoldable pub run_idempotent : Db → Result Done × Db
  run_idempotent db =
      if valid_idempotency_key key then settle (transaction db) db else (err (refused bad_key), db)
