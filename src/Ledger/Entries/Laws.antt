-- ===== src/Ledger/Entries/Laws.antt =====
-- What handovers, adjustments and reversals do to the balances (services/agent_ledger.go).
use zyranet_api.Base.{
  ℕ, ◌≡◌, ◌≢◌, refl, false, some, List, arith, ◌==◌, find_first, Option-cases, inl, inr, subst,
  find_first_holds, IsPrefix,
}
use zyranet_api.Int.{ℤ, pos, negsuc, ◌+ℤ◌, ◌-ℤ◌, leb_ℤ, ltb_ℤ}
use zyranet_api.Words.{neg64, neg64_id}
use zyranet_api.Text.{Text, bytes, trim_space, to_lower, to_upper}
use zyranet_api.Ledger.Rows.{Agent, Entry}
use zyranet_api.Ledger.Tx.{Db, Env, Result, ok, err, Tx, insert_entry}
use zyranet_api.Ledger.Idempotency.{Actor, Done, is_agent, run_idempotent}
use zyranet_api.Ledger.Idempotency.Laws.{run_idempotent_steps}
use zyranet_api.Ledger.Postings.{
  balance_of, Posts, Posts-balance_of, Posts-balance_of_ne, insert_entry-Posts, new_entry,
  Posts-IsPrefix,
}
use zyranet_api.Ledger.Entries.{
  Receipt, load_entry, HandoverRequest, handover_body, record_handover, accepted_handover,
  adjustment_body, adjustment_entry, handover_entry, record_adjustment, accepted_adjustment,
  max_handover_cents, count_live_codes,
}

-- A body that posts to the locked agent makes the whole request post the same.
pub run_idempotent-Posts :
    (env : Env) (actor : Actor) (agent_id : ℕ) (key op hash : Text) (body : Agent → Tx ℕ)
    (delta : ℤ) (db db' : Db) (d : Done)
    → ((a : Agent) (s : Db) (r : ℕ) (s' : Db) → body a s ≡ ok (r, s') → Posts a.id delta s s')
    → run_idempotent env actor agent_id key op hash body db ≡ (ok d, db')
    → d.replay ≡ false
    → (s : Db) × Posts agent_id delta db s × (db'.entries ≡ s.entries)
run_idempotent-Posts env actor agent_id key op hash body delta db db' d posts h n =
    let (a, s, found, fresh, worked, stored) =
      run_idempotent_steps env actor agent_id key op hash body db db' d h n in
    let here = find_first_holds (is_agent actor.org_id agent_id) db.agents a found in
    let same : a.id ≡ agent_id = ground arith in
    (s, subst (λ k. Posts k delta db s) same (posts a db d.result s worked), rw stored)

-- An insertion posts the amount of its entry, whichever way it was reached.
adjustment_body-Posts :
    (env : Env) (actor : Actor) (note : Text) (amount : ℤ) (a : Agent) (s : Db) (r : ℕ) (s' : Db)
    → adjustment_body env actor note amount a s ≡ ok (r, s')
    → Posts a.id amount s s'
unfolding adjustment_body new_entry
adjustment_body-Posts env actor note amount a s r s' h =
    insert_entry-Posts env 0 (adjustment_entry env actor note amount a.id) s s' r h

handover_body-Posts :
    (env : Env) (actor : Actor) (method reference note : Text) (amount : ℤ) (a : Agent) (s : Db)
    (r : ℕ) (s' : Db)
    → handover_body env actor method reference note amount a s ≡ ok (r, s')
    → Posts a.id (neg64 amount) s s'
unfolding handover_body new_entry count_live_codes
handover_body-Posts env actor method reference note amount a s r s' h =
    let e = handover_entry env actor method reference note amount a.id in
    let inserted : insert_entry env 0 e s ≡ ok (r, s') = ground arith in
    insert_entry-Posts env 0 e s s' r inserted

pub load_entry_steps :
    (env : Env) (o : Result Done) (s db' : Db) (r : Receipt)
    → load_entry env (o, s) ≡ (ok r, db')
    → (d : Done) × (o ≡ ok d)
      × (d.replay ≡ r.replay)
      × (s ≡ db')
      × (find_first (λ e. e.id == d.result) s.entries ≡ some r.entry)
unfolding load_entry
load_entry_steps env (err e) s db' r h = absurd (ground arith)
load_entry_steps env (ok d) s db' r h =
    elim (Option-cases (find_first (λ e. e.id == d.result) s.entries)) [
      | inl gone ↦ absurd (ground arith)
      | inr (e, found) ↦ (d, refl, ground arith, ground arith, ground arith)
    ]

-- What a request that was carried out posted, read from the answer with the entry loaded.
pub load_entry-Posts :
    (env : Env) (actor : Actor) (agent_id : ℕ) (key op hash : Text) (body : Agent → Tx ℕ)
    (delta : ℤ) (db db' : Db) (r : Receipt)
    → ((a : Agent) (s : Db) (i : ℕ) (s' : Db) → body a s ≡ ok (i, s') → Posts a.id delta s s')
    → load_entry env (run_idempotent env actor agent_id key op hash body db) ≡ (ok r, db')
    → r.replay ≡ false
    → (s : Db) × Posts agent_id delta db s × (db'.entries ≡ s.entries)
load_entry-Posts env actor agent_id key op hash body delta db db' r posts h n =
    let run = run_idempotent env actor agent_id key op hash body db in
    let (d, done, same, kept, found) = load_entry_steps env run.0 run.1 db' r h in
    run_idempotent-Posts env actor agent_id key op hash body delta db db' d posts (ground arith)
      (ground arith)

-- How the balances and the ledger stand after a step that posts `delta` to `agent_id`.
pub record Moves (agent_id other : ℕ) (delta : ℤ) (before after : List Entry) : Type 0 where
  pub moved : balance_of agent_id after ≡ balance_of agent_id before +ℤ delta
  pub kept : balance_of other after ≡ balance_of other before
  pub appended : IsPrefix before after

pub Moves-of_Posts :
    (agent_id other : ℕ) (delta : ℤ) (db s : Db) (after : List Entry)
    → other ≢ agent_id
    → Posts agent_id delta db s
    → after ≡ s.entries
    → Moves agent_id other delta db.entries after
Moves-of_Posts agent_id other delta db s after n p e = record {
  moved = rw e (Posts-balance_of p);
  kept = rw e (Posts-balance_of_ne p other n);
  appended = rw e (Posts-IsPrefix p);
}

neg64_small :
    (a : ℤ)
    → leb_ℤ a (pos 0) ≡ false
    → ltb_ℤ (pos max_handover_cents) a ≡ false
    → neg64 a ≡ pos 0 -ℤ a
unfolding ◌-ℤ◌
neg64_small (pos n) h k = neg64_id (pos n) (ground arith)
neg64_small (negsuc n) h k = absurd (ground arith)

record_handover_steps :
    (env : Env) (actor : Actor) (req : HandoverRequest) (db db' : Db) (r : Receipt)
    → record_handover env actor req db ≡ (ok r, db')
    → (leb_ℤ req.amount (pos 0) ≡ false)
      × (ltb_ℤ (pos max_handover_cents) req.amount ≡ false)
      × (accepted_handover env actor req
            (to_lower (trim_space req.method))
            (to_upper (trim_space req.reference))
            (trim_space req.note)
            db
          ≡ (ok r, db'))
unfolding record_handover
record_handover_steps env actor req db db' r h = ground arith

-- A handover that is carried out (and not replayed) lowers what its agent owes by exactly the amount received, whatever
-- the method, changes no other agent's balance, and only adds to the ledger.
pub record_handover-Moves :
    (env : Env) (actor : Actor) (req : HandoverRequest) (other : ℕ) (db db' : Db) (r : Receipt)
    → other ≢ req.agent_id
    → record_handover env actor req db ≡ (ok r, db')
    → r.replay ≡ false
    → Moves req.agent_id other (pos 0 -ℤ req.amount) db.entries db'.entries
unfolding accepted_handover
record_handover-Moves env actor req other db db' r n h fresh =
    let method = to_lower (trim_space req.method) in
    let reference = to_upper (trim_space req.reference) in
    let note = trim_space req.note in
    let (above, below, accepted) = record_handover_steps env actor req db db' r h in
    let (s, posted, same) =
      load_entry-Posts env actor req.agent_id req.key (bytes "handover") _
        (handover_body env actor method reference note req.amount) (neg64 req.amount) db db' r
        (handover_body-Posts env actor method reference note req.amount) accepted fresh in
    subst (λ t. Moves req.agent_id other t db.entries db'.entries)
      (neg64_small req.amount above below)
      (Moves-of_Posts req.agent_id other (neg64 req.amount) db s db'.entries n posted same)

record_adjustment_steps :
    (env : Env) (actor : Actor) (agent_id : ℕ) (amount : ℤ) (note key : Text) (db db' : Db)
    (r : Receipt)
    → record_adjustment env actor agent_id amount note key db ≡ (ok r, db')
    → accepted_adjustment env actor agent_id amount (trim_space note) key db ≡ (ok r, db')
unfolding record_adjustment
record_adjustment_steps env actor agent_id amount note key db db' r h = ground arith

-- An adjustment that is carried out (and not replayed) moves its agent's balance by exactly the signed amount, changes no
-- other agent's balance, and only adds to the ledger.
pub record_adjustment-Moves :
    (env : Env) (actor : Actor) (agent_id other : ℕ) (amount : ℤ) (note key : Text) (db db' : Db)
    (r : Receipt)
    → other ≢ agent_id
    → record_adjustment env actor agent_id amount note key db ≡ (ok r, db')
    → r.replay ≡ false
    → Moves agent_id other amount db.entries db'.entries
unfolding accepted_adjustment
record_adjustment-Moves env actor agent_id other amount note key db db' r n h fresh =
    let accepted = record_adjustment_steps env actor agent_id amount note key db db' r h in
    let (s, posted, same) =
      load_entry-Posts env actor agent_id key (bytes "adjustment") _
        (adjustment_body env actor (trim_space note) amount) amount db db' r
        (adjustment_body-Posts env actor (trim_space note) amount) accepted fresh in
    Moves-of_Posts agent_id other amount db s db'.entries n posted same
