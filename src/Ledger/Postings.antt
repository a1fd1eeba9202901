-- ===== src/Ledger/Postings.antt =====
-- Balances as sums of entries (services/agent_ledger.go: `AgentBalance`, `newEntry`), and what it
-- means for a step to post an amount to one agent.
use zyranet_api.Base.{
  ℕ, ◌≡◌, ◌≢◌, refl, ap, Bool, none, List, [], ◌∷◌, ◌++◌, arith, ◌==◌, ◌∙◌, if◌then◌else◌, select,
  select-append, All, IsPrefix, append_assoc, append-nil,
}
use zyranet_api.Int.{ℤ, pos, ◌+ℤ◌, sum_of, sum_of-append, int_laws}
use zyranet_api.Words.{fits64}
use zyranet_api.Ledger.Rows.{Entry, EntryType}
use zyranet_api.Ledger.Tx.{
  Db, Env, Tx, ok, fault, pure, fail, gets, fail_if, ◌>>=◌, ◌>>◌, read_balance, insert_entry,
}
use zyranet_api.Ledger.Idempotency.{Actor}

abbrev pub amount_of : Entry → ℤ
amount_of e = e.amount

abbrev pub is_of : ℕ → Entry → Bool
is_of agent_id e = e.agent_id == agent_id

-- The sum of the agent's entries.
unfoldable pub balance_of : ℕ → List Entry → ℤ
balance_of agent_id entries = sum_of amount_of (select (is_of agent_id) entries)

-- The query behind it, which fails where the sum does not fit an int64.
unfoldable pub agent_balance : Env → ℕ → Tx ℤ
agent_balance env agent_id = do
  fail_if (env.fails read_balance) fault
  sum ← gets (λ db. balance_of agent_id db.entries)
  if fits64 sum then pure sum else fail fault

-- The fields that a new entry has before its operation fills in the rest.
unfoldable pub new_entry : Env → Actor → ℕ → EntryType → ℤ → Entry
new_entry env actor agent_id kind amount = record {
  id = 0;
  org_id = actor.org_id;
  agent_id = agent_id;
  kind = kind;
  amount = amount;
  batch_id = none;
  voucher_count = 0;
  method = [];
  reference = [];
  note = [];
  reverses_id = none;
  created_by = actor.user_id;
  created_at = env.now;
}

-- A step adds entries of one agent at the end of the ledger, which come to `delta`, and leaves
-- the keys and the agents alone.
pub record Posts (agent_id : ℕ) (delta : ℤ) (db db' : Db) : Type 0 where
  pub added : List Entry
  pub whole : db.entries ++ added ≡ db'.entries
  pub owned : All (λ e. e.agent_id ≡ agent_id) added
  pub total : sum_of amount_of added ≡ delta
  pub keys : db'.keys ≡ db.keys
  pub agents : db'.agents ≡ db.agents

select_owned :
    (agent_id : ℕ) (xs : List Entry)
    → All (λ e. e.agent_id ≡ agent_id) xs
    → select (is_of agent_id) xs ≡ xs
select_owned agent_id [] h = refl
select_owned agent_id (x ∷ xs) h = ground (arith, select_owned agent_id xs h.1)

select_foreign :
    (agent_id other : ℕ) (xs : List Entry)
    → other ≢ agent_id
    → All (λ e. e.agent_id ≡ agent_id) xs
    → select (is_of other) xs ≡ []
select_foreign agent_id other [] n h = refl
select_foreign agent_id other (x ∷ xs) n h = ground (arith, select_foreign agent_id other xs n h.1)

balance_of-append :
    (agent_id : ℕ) (xs ys : List Entry)
    → balance_of agent_id (xs ++ ys) ≡ balance_of agent_id xs +ℤ balance_of agent_id ys
unfolding balance_of
balance_of-append agent_id xs ys =
    rw (select-append (is_of agent_id) xs ys)
      (sum_of-append amount_of (select (is_of agent_id) xs) (select (is_of agent_id) ys))

module _ {agent_id : ℕ} {delta : ℤ} {db db' : Db} (p : Posts agent_id delta db db') where
  -- The agent's balance moves by the amount posted.
  pub Posts-balance_of : balance_of agent_id db'.entries ≡ balance_of agent_id db.entries +ℤ delta
  unfolding balance_of
  Posts-balance_of = rw (← p.whole) (
      balance_of-append agent_id db.entries p.added
      ∙ ap (λ t. balance_of agent_id db.entries +ℤ t)
          (ap (sum_of amount_of) (select_owned agent_id p.added p.owned) ∙ p.total))

  -- No other balance moves.
  pub Posts-balance_of_ne :
      (other : ℕ) → other ≢ agent_id → balance_of other db'.entries ≡ balance_of other db.entries
  unfolding balance_of
  Posts-balance_of_ne other n = rw (← p.whole) (
      balance_of-append other db.entries p.added
      ∙ ap (λ t. balance_of other db.entries +ℤ t)
          (ap (sum_of amount_of) (select_foreign agent_id other p.added n p.owned))
      ∙ omega int_laws)

  pub Posts-IsPrefix : IsPrefix db.entries db'.entries
  Posts-IsPrefix = record { added = p.added; whole = p.whole }

pub Posts-refl : (agent_id : ℕ) (db : Db) → Posts agent_id (pos 0) db db
Posts-refl agent_id db = record {
  added = [];
  whole = append-nil db.entries;
  owned = tt;
  total = refl;
  keys = refl;
  agents = refl;
}

All-append : (P : Entry → Type 0) (xs ys : List Entry) → All P xs → All P ys → All P (xs ++ ys)
All-append P [] ys hx hy = hy
All-append P (x ∷ xs) ys hx hy = (hx.0, All-append P xs ys hx.1 hy)

pub Posts-trans :
    (agent_id : ℕ) (d e : ℤ) (s t u : Db)
    → Posts agent_id d s t
    → Posts agent_id e t u
    → Posts agent_id (d +ℤ e) s u
Posts-trans agent_id d e s t u p q = record {
  added = p.added ++ q.added;
  whole = rw (← append_assoc) (rw p.whole q.whole);
  owned = All-append (λ x. x.agent_id ≡ agent_id) p.added q.added p.owned q.owned;
  total = rw (sum_of-append amount_of p.added q.added, p.total, q.total) refl;
  keys = q.keys ∙ p.keys;
  agents = q.agents ∙ p.agents;
}

-- One insertion posts its entry's amount.
pub insert_entry-Posts :
    (env : Env) (i : ℕ) (e : Entry) (db db' : Db) (id : ℕ)
    → insert_entry env i e db ≡ ok (id, db')
    → Posts e.agent_id e.amount db db'
unfolding insert_entry
insert_entry-Posts env i e db db' id h = record {
  added = record e { id = db.next_entry } ∷ [];
  whole = ground arith;
  owned = (refl, tt);
  total = omega int_laws;
  keys = ground arith;
  agents = ground arith;
}
