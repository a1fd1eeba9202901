-- ===== src/Ledger/Idempotency/Laws.antt =====
-- Requests under a key, for any body (services/agent_ledger.go: `runIdempotent`).
use zyranet_api.Base.{
  ℕ, ◌≡◌, true, false, none, some, [], arith, find_first, find_first-append_hit, Option-cases, inl,
  inr,
}
use zyranet_api.Text.{Text, text_eq_refl}
use zyranet_api.Ledger.Rows.{Agent, IdemKey}
use zyranet_api.Ledger.Tx.{Db, Env, ok, Tx, Result-cases, find_key, lock_agent, commit}
use zyranet_api.Ledger.Idempotency.{
  Actor, is_agent, is_key, lock, replayed, save, Done, again, transaction, run_idempotent,
  valid_idempotency_key, append_key, same_request,
}

module _ (env : Env) (actor : Actor) (agent_id : ℕ) (key op hash : Text) (body : Agent → Tx ℕ) where
  -- A request that was not a replay ran its transaction to the end.
  run_idempotent_first :
      (db db' : Db) (d : Done)
      → run_idempotent env actor agent_id key op hash body db ≡ (ok d, db')
      → d.replay ≡ false
      → (valid_idempotency_key key ≡ true)
        × (transaction env actor agent_id key op hash body db ≡ ok (d, db'))
  unfolding run_idempotent
  run_idempotent_first db db' d h n = ground arith

  abbrev pub row : ℕ → IdemKey
  row id = record {
    org_id = actor.org_id;
    key = key;
    agent_id = agent_id;
    operation = op;
    hash = hash;
    result = id;
    created_at = env.now;
  }

  -- The steps of a transaction that carried out the work.
  pub transaction_steps :
      (db db' : Db) (d : Done)
      → transaction env actor agent_id key op hash body db ≡ ok (d, db')
      → d.replay ≡ false
      → (a : Agent) × (s : Db) × (find_first (is_agent actor.org_id agent_id) db.agents ≡ some a)
        × (find_first (is_key actor.org_id key) db.keys ≡ none)
        × (body a db ≡ ok (d.result, s))
        × (db' ≡ append_key (row d.result) s)
  unfolding transaction lock replayed save
  transaction_steps db db' d h n =
      elim (Option-cases (find_first (is_agent actor.org_id agent_id) db.agents)) [
        | inl gone ↦ absurd (ground arith)
        | inr (a, found) ↦ elim (Result-cases (body a db)) [
          | inl (e, failed) ↦ absurd (ground arith)
          | inr ((r, s), done) ↦ (a, s, found, ground arith, ground arith, ground arith)
        ]
      ]

  -- The steps of a request that carried out the work.
  pub run_idempotent_steps :
      (db db' : Db) (d : Done)
      → run_idempotent env actor agent_id key op hash body db ≡ (ok d, db')
      → d.replay ≡ false
      → (a : Agent) × (s : Db) × (find_first (is_agent actor.org_id agent_id) db.agents ≡ some a)
        × (find_first (is_key actor.org_id key) db.keys ≡ none)
        × (body a db ≡ ok (d.result, s))
        × (db' ≡ append_key (row d.result) s)
  run_idempotent_steps db db' d h n =
      transaction_steps db db' d (run_idempotent_first db db' d h n).1 n

-- The body of a request leaves the agents and the idempotency keys alone.
abbrev pub KeepsKeys : (Agent → Tx ℕ) → Type 0
KeepsKeys body =
    (a : Agent) (s : Db) (r : ℕ) (s' : Db)
    → body a s ≡ ok (r, s')
    → (s'.keys ≡ s.keys) × (s'.agents ≡ s.agents)

module _ (env : Env) (actor : Actor) (agent_id : ℕ) (key op hash : Text) where
  transaction-again :
      (body : Agent → Tx ℕ) (s : Db) (a : Agent) (k : IdemKey)
      → find_first (is_agent actor.org_id agent_id) s.agents ≡ some a
      → find_first (is_key actor.org_id key) s.keys ≡ some k
      → same_request op agent_id hash k ≡ true
      → env.fails lock_agent ≡ false
      → env.fails find_key ≡ false
      → env.fails commit ≡ false
      → transaction env actor agent_id key op hash body s ≡ ok (again k.result, s)
  unfolding transaction lock replayed
  transaction-again body s a k ha hk same f1 f2 f3 = ground arith

-- Once a request whose body leaves keys and agents alone has been carried out under a key, the same
-- request under that key, with any body, from any environment in which the lock, the key's lookup and the
-- commit do not fail, gives the first result, says that it is a replay, and changes nothing.
pub run_idempotent_retry :
    (env later : Env) (actor : Actor) (agent_id : ℕ) (key op hash : Text)
    (body body' : Agent → Tx ℕ) (db db' : Db) (d : Done)
    → KeepsKeys body
    → run_idempotent env actor agent_id key op hash body db ≡ (ok d, db')
    → d.replay ≡ false
    → later.fails lock_agent ≡ false
    → later.fails find_key ≡ false
    → later.fails commit ≡ false
    → run_idempotent later actor agent_id key op hash body' db' ≡ (ok (again d.result), db')
unfolding run_idempotent
run_idempotent_retry env later actor agent_id key op hash body body' db db' d keeps h n f1 f2 f3 =
    let (valid, ran) = run_idempotent_first env actor agent_id key op hash body db db' d h n in
    let (a, s, found, fresh, worked, stored) =
      transaction_steps env actor agent_id key op hash body db db' d ran n in
    let (kept, agents) = keeps a db d.result s worked in
    let new : IdemKey = row env actor agent_id key op hash body d.result in
    let hit =
      find_first-append_hit (is_key actor.org_id key) db.keys [] new fresh
        (ground (arith, text_eq_refl key)) in
    let rerun =
      transaction-again later actor agent_id key op hash body' db' a new (rw (stored, agents) found)
        (rw (stored, kept) hit) (ground (arith, text_eq_refl op, text_eq_refl hash)) f1 f2 f3 in
    rw valid (rw rerun)
