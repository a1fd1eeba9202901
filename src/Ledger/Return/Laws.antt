-- ===== src/Ledger/Return/Laws.antt =====
-- What a return does to the balance (services/agent_ledger.go, `ReturnAgentVouchers`).
use zyranet_api.Base.{
  ℕ, suc, ◌≡◌, ◌≢◌, refl, sym, ◌∙◌, false, List, [], ◌∷◌, if◌then◌else◌, append-nil, arith,
  Bool-cases, inl, inr, subst, find_first_holds,
}
use zyranet_api.Int.{ℤ, pos, leb_ℤ, ◌+ℤ◌, int_laws}
use zyranet_api.Words.{neg64}
use zyranet_api.Text.{Text, bytes}
use zyranet_api.Ledger.Rows.{Agent, AgentVoucher, Entry, EntryType}
use zyranet_api.Ledger.Tx.{Db, Env, ok, pure, >>=-eq-ok, insert_entry}
use zyranet_api.Ledger.Idempotency.{Actor, is_agent, run_idempotent, request_hash}
use zyranet_api.Ledger.Idempotency.Laws.{run_idempotent_steps}
use zyranet_api.Ledger.Postings.{Posts, Posts-trans, Posts-refl, insert_entry-Posts, new_entry}
use zyranet_api.Ledger.Entries.{Receipt, load_entry}
use zyranet_api.Ledger.Entries.Laws.{Moves, Moves-of_Posts, load_entry_steps}
use zyranet_api.Ledger.Return.{
  ReturnRequest, Totals, totals_from, no_totals, return_one, return_each, return_entry,
  post_commission, post_return, return_body, return_held, held_rows, note_or_count,
  return_agent_vouchers, sort_numbers, return_parts,
}

-- The commission that goes back to the debt.
abbrev pub taken_back : ℤ → ℤ
taken_back c = if leb_ℤ c (pos 0) then pos 0 else c

-- What a return changes of the balance.
abbrev pub relief : Totals → ℤ
relief t = neg64 t.face +ℤ taken_back t.commission

module _ (env : Env) (actor : Actor) where
  -- Taking vouchers back posts nothing.
  SameLedger : Db → Db → Type 0
  SameLedger db db' = (db'.entries ≡ db.entries) × (db'.keys ≡ db.keys) × (db'.agents ≡ db.agents)

  return_one-SameLedger :
      (i : ℕ) (h : AgentVoucher) (db db' : Db)
      → return_one env actor i h db ≡ ok (tt, db')
      → SameLedger db db'
  unfolding return_one SameLedger
  return_one-SameLedger i h db db' e = ground arith

  return_each-SameLedger :
      (i : ℕ) (hs : List AgentVoucher) (db db' : Db)
      → return_each env actor i hs db ≡ ok (tt, db')
      → SameLedger db db'
  unfolding return_each SameLedger
  return_each-SameLedger i [] db db' e = ground arith
  return_each-SameLedger i (h ∷ hs) db db' e =
      let (_, mid, one, rest) = >>=-eq-ok (return_one env actor i h) _ db e in
      let (e₁, k₁, a₁) = return_one-SameLedger i h db mid one in
      let (e₂, k₂, a₂) = return_each-SameLedger (suc i) hs mid db' rest in
      (e₂ ∙ e₁, k₂ ∙ k₁, a₂ ∙ a₁)

  SameLedger-Posts :
      (agent_id : ℕ) (db db' : Db) → SameLedger db db' → Posts agent_id (pos 0) db db'
  unfolding SameLedger
  SameLedger-Posts agent_id db db' (e, k, a) = record {
    added = [];
    whole = append-nil db.entries ∙ sym e;
    owned = tt;
    total = refl;
    keys = k;
    agents = a;
  }

  post_commission-Posts :
      (held : List AgentVoucher) (note : Text) (agent_id : ℕ) (c : ℤ) (id : ℕ) (db : Db) (r : ℕ)
      (db' : Db)
      → post_commission env actor held note agent_id c id db ≡ ok (r, db')
      → Posts agent_id (taken_back c) db db'
  unfolding post_commission new_entry
  post_commission-Posts held note agent_id c id db r db' h = elim (Bool-cases (leb_ℤ c (pos 0))) [
    | inl none_due ↦
        let same : db ≡ db' = ground arith in
        rw none_due (subst (Posts agent_id (pos 0) db) same (Posts-refl agent_id db))
    | inr due ↦
        let entry = return_entry env actor EntryType.commission_reversal held note agent_id c in
        let (i, mid, inserted, left) =
          >>=-eq-ok (insert_entry env 1 entry) (λ _. pure id) db (rw due at h) in
        let same : mid ≡ db' = ground arith in
        rw due (subst (Posts agent_id c db) same (insert_entry-Posts env 1 entry db mid i inserted))
  ]

  post_return-Posts :
      (held : List AgentVoucher) (note : Text) (agent_id : ℕ) (t : Totals) (db : Db) (r : ℕ)
      (db' : Db)
      → post_return env actor held note agent_id t db ≡ ok (r, db')
      → Posts agent_id (relief t) db db'
  unfolding post_return new_entry
  post_return-Posts held note agent_id t db r db' h =
      let entry = return_entry env actor EntryType.return held note agent_id (neg64 t.face) in
      let (id, mid, inserted, rest) = >>=-eq-ok (insert_entry env 0 entry) _ db h in
      Posts-trans agent_id (neg64 t.face) (taken_back t.commission) db mid db'
        (insert_entry-Posts env 0 entry db mid id inserted)
        (post_commission-Posts held note agent_id t.commission id mid r db' rest)

  return_held-Posts :
      (held : List AgentVoucher) (note : Text) (agent_id : ℕ) (db : Db) (r : ℕ) (db' : Db)
      → return_held env actor held note agent_id db ≡ ok (r, db')
      → Posts agent_id (relief (totals_from (no_totals env actor) held)) db db'
  unfolding return_held
  return_held-Posts held note agent_id db r db' h =
      let t = totals_from (no_totals env actor) held in
      let (_, mid, taken, posted) = >>=-eq-ok (return_each env actor 0 held) _ db h in
      let still = SameLedger-Posts agent_id db mid (return_each-SameLedger 0 held db mid taken) in
      let zero : pos 0 +ℤ relief t ≡ relief t = omega int_laws in
      subst (λ d. Posts agent_id d db db') zero
        (Posts-trans agent_id (pos 0) (relief t) db mid db' still
          (post_return-Posts held note agent_id t mid r db' posted))

  return_body_steps :
      (ids : List ℕ) (req : ReturnRequest) (a : Agent) (db : Db) (r : ℕ) (db' : Db)
      → return_body env actor ids req a db ≡ ok (r, db')
      → return_held env actor
          (held_rows env actor ids req a db)
          (note_or_count env actor req.note (held_rows env actor ids req a db))
          a.id
          db
        ≡ ok (r, db')
  unfolding return_body
  return_body_steps ids req a db r db' h = ground arith

  return_agent_vouchers_steps :
      (req : ReturnRequest) (db db' : Db) (r : Receipt)
      → return_agent_vouchers env actor req db ≡ (ok r, db')
      → load_entry env (
          run_idempotent env actor req.agent_id req.key
            (bytes "return")
            (request_hash env (return_parts env actor (sort_numbers req.voucher_ids) req))
            (return_body env actor (sort_numbers req.voucher_ids) req)
            db)
        ≡ (ok r, db')
  unfolding return_agent_vouchers
  return_agent_vouchers_steps req db db' r h = ground arith

-- The rows that a return takes back: those asked for that the agent holds when the request is served.
pub record Returns (env : Env) (actor : Actor) (req : ReturnRequest) (db : Db) (other : ℕ)
    (after : List Entry) : Type 0 where
  pub agent : Agent
  pub mine : agent.id ≡ req.agent_id
  pub held : List AgentVoucher
  pub rows : held ≡ held_rows env actor (sort_numbers req.voucher_ids) req agent db
  pub moves :
      Moves req.agent_id other (relief (totals_from (no_totals env actor) held)) db.entries after

-- A return that is carried out (and not replayed) lowers what the agent owes by the face values of the
-- rows that are handed back, less the commission that was given for them (all sums modulo 2^64), changes
-- no other agent's balance, and only adds to the ledger.
pub return_agent_vouchers-Returns :
    (env : Env) (actor : Actor) (req : ReturnRequest) (other : ℕ) (db db' : Db) (r : Receipt)
    → other ≢ req.agent_id
    → return_agent_vouchers env actor req db ≡ (ok r, db')
    → r.replay ≡ false
    → Returns env actor req db other db'.entries
return_agent_vouchers-Returns env actor req other db db' r n h fresh =
    let ids = sort_numbers req.voucher_ids in
    let hash = request_hash env (return_parts env actor ids req) in
    let body = return_body env actor ids req in
    let run = run_idempotent env actor req.agent_id req.key (bytes "return") hash body db in
    let loaded = return_agent_vouchers_steps env actor req db db' r h in
    let (d, done, same, kept, found) = load_entry_steps env run.0 run.1 db' r loaded in
    let (a, s, agent_found, unused_key, worked, stored) =
      run_idempotent_steps env actor req.agent_id req.key (bytes "return") hash body db db' d
        (ground arith) (ground arith) in
    let here = find_first_holds (is_agent actor.org_id req.agent_id) db.agents a agent_found in
    let mine : a.id ≡ req.agent_id = ground arith in
    let held = held_rows env actor ids req a db in
    let posted =
      return_held-Posts env actor held (note_or_count env actor req.note held) a.id db d.result s
        (return_body_steps env actor ids req a db d.result s worked) in
    let delta = relief (totals_from (no_totals env actor) held) in
    record {
      agent = a;
      mine = mine;
      held = held;
      rows = refl;
      moves =
          Moves-of_Posts req.agent_id other delta db s db'.entries n
            (subst (λ k. Posts k delta db s) mine posted) (rw stored refl);
    }
