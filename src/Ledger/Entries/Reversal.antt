-- ===== src/Ledger/Entries/Reversal.antt =====
-- A reversal cancels its entry, and an entry is reversed at most once (services/agent_ledger.go,
-- `ReverseEntry`).
use zyranet_api.Base.{
  ℕ, ◌≡◌, ◌≢◌, ◌<◌, ◌^◌, refl, ap, Bool, true, false, some, List, [], ◌∷◌, ◌++◌, arith, find_first,
  Option-cases, inl, inr, exists_where, opt_eq, subst, find_first_holds, All, All_find_first,
  Bool-cases,
}
use zyranet_api.Int.{ℤ, pos, negsuc, pos_part, neg_part, ◌-ℤ◌}
use zyranet_api.Words.{neg64, neg64_id, Fits64}
use zyranet_api.Text.{Text, bytes, trim_space}
use zyranet_api.Ledger.Rows.{Agent, Entry, is_reversible}
use zyranet_api.Ledger.Tx.{Db, Env, ok, insert_entry}
use zyranet_api.Ledger.Idempotency.{Actor, is_agent, run_idempotent, request_hash}
use zyranet_api.Ledger.Idempotency.Laws.{run_idempotent_steps}
use zyranet_api.Ledger.Postings.{insert_entry-Posts, new_entry}
use zyranet_api.Ledger.Entries.{
  Receipt, reversal_parts, accepted_reversal, reversal_body, reverse_entry, reversal_entry,
  find_original, count_reversals_of, is_entry, is_reversed,
}
use zyranet_api.Ledger.Entries.Laws.{load_entry_steps, Moves, Moves-of_Posts}

-- The original of a reversal that was written, with what was checked of it.
reversal_body_steps :
    (env : Env) (actor : Actor) (entry_id : ℕ) (note : Text) (a : Agent) (s : Db) (r : ℕ) (s' : Db)
    → reversal_body env actor entry_id note a s ≡ ok (r, s')
    → (orig : Entry) × (find_first (is_entry entry_id a.id actor.org_id) s.entries ≡ some orig)
      × (is_reversible orig.kind ≡ true)
      × (insert_entry env 0 (reversal_entry env actor orig note a.id) s ≡ ok (r, s'))
unfolding reversal_body find_original count_reversals_of
reversal_body_steps env actor entry_id note a s r s' h =
    elim (Option-cases (find_first (is_entry entry_id a.id actor.org_id) s.entries)) [
      | inl gone ↦ absurd (ground arith)
      | inr (orig, found) ↦ (orig, found, ground arith, ground arith)
    ]

-- Its amount has an opposite among the int64.
abbrev pub IsNegatable : ℤ → Type 0
IsNegatable a = (pos_part a < 2 ^ 63) × (neg_part a < 2 ^ 63)

IsNegatable-Fits64 : (a : ℤ) → IsNegatable a → Fits64 (pos 0 -ℤ a)
unfolding ◌-ℤ◌
IsNegatable-Fits64 (pos n) h = ground arith
IsNegatable-Fits64 (negsuc n) h = ground arith

exists_where-append_hit :
    (p : Entry → Bool) (xs : List Entry) (x : Entry)
    → p x ≡ true
    → exists_where p (xs ++ x ∷ []) ≡ true
exists_where-append_hit p [] x h = ground arith
exists_where-append_hit p (y ∷ xs) x h = ground (arith, exists_where-append_hit p xs x h)

-- The unique index on `reverses_id`.
twin_refused :
    (env : Env) (e : Entry) (k : ℕ) (db : Db) (i : ℕ) (s : Db)
    → e.reverses_id ≡ some k
    → is_reversed db.entries k ≡ true
    → insert_entry env 0 e db ≡ ok (i, s)
    → ⊥
unfolding insert_entry
twin_refused env e k db i s names twice h = ground arith

insert_is_reversed :
    (env : Env) (e : Entry) (k : ℕ) (db : Db) (i : ℕ) (s : Db)
    → e.reverses_id ≡ some k
    → insert_entry env 0 e db ≡ ok (i, s)
    → is_reversed s.entries k ≡ true
unfolding insert_entry
insert_is_reversed env e k db i s names h =
    let added : s.entries ≡ db.entries ++ record e { id = db.next_entry } ∷ [] = ground arith in
    rw added (
      exists_where-append_hit (λ x. opt_eq x.reverses_id (some k)) db.entries
        (record e { id = db.next_entry }) (ground arith))

accepted_reversal_steps :
    (env : Env) (actor : Actor) (agent_id entry_id : ℕ) (note key : Text) (db db' : Db)
    (r : Receipt)
    → reverse_entry env actor agent_id entry_id note key db ≡ (ok r, db')
    → accepted_reversal env actor agent_id entry_id (trim_space note) key db ≡ (ok r, db')
unfolding reverse_entry
accepted_reversal_steps env actor agent_id entry_id note key db db' r h = ground arith

-- A reversal that was carried out, taken apart: the entry it reverses, and the insertion.
reverse_entry_steps :
    (env : Env) (actor : Actor) (agent_id entry_id : ℕ) (note key : Text) (db db' : Db)
    (r : Receipt)
    → reverse_entry env actor agent_id entry_id note key db ≡ (ok r, db')
    → r.replay ≡ false
    → (orig : Entry) × (s : Db) × (find_first (is_entry entry_id agent_id actor.org_id) db.entries
        ≡ some orig)
      × (is_reversible orig.kind ≡ true)
      × (i : ℕ) × (insert_entry env 0 (reversal_entry env actor orig (trim_space note) agent_id) db
          ≡ ok (i, s))
      × (db'.entries ≡ s.entries)
unfolding reverse_entry accepted_reversal
reverse_entry_steps env actor agent_id entry_id note key db db' r h n =
    let note' = trim_space note in
    let body = reversal_body env actor entry_id note' in
    let hash = request_hash env (reversal_parts env actor agent_id entry_id note') in
    let accepted : accepted_reversal env actor agent_id entry_id note' key db ≡ (ok r, db') =
      accepted_reversal_steps env actor agent_id entry_id note key db db' r h in
    let run = run_idempotent env actor agent_id key (bytes "reversal") hash body db in
    let (d, done, same, kept, _) = load_entry_steps env run.0 run.1 db' r accepted in
    let (a, s, found, _, worked, stored) =
      run_idempotent_steps env actor agent_id key (bytes "reversal") hash body db db' d
        (ground arith) (ground arith) in
    let here = find_first_holds (is_agent actor.org_id agent_id) db.agents a found in
    let this : a.id ≡ agent_id = ground arith in
    let (orig, is_it, may, inserted) =
      reversal_body_steps env actor entry_id note' a db d.result s worked in
    (orig, s, rw this at is_it, may, d.result, rw this at inserted, rw stored)

-- An entry that has been reversed is not reversed again: whatever statements fail, the most that a
-- further request to reverse it gives is the replay of an earlier one.
pub reverse_entry_once :
    (env : Env) (actor : Actor) (agent_id entry_id : ℕ) (note key : Text) (db db' : Db)
    (r : Receipt)
    → is_reversed db.entries entry_id ≡ true
    → reverse_entry env actor agent_id entry_id note key db ≡ (ok r, db')
    → r.replay ≡ true
reverse_entry_once env actor agent_id entry_id note key db db' r twice h =
    elim (Bool-cases r.replay) [
      | inl replayed ↦ replayed
      | inr fresh ↦
          let (orig, s, found, _, i, inserted, _) =
            reverse_entry_steps env actor agent_id entry_id note key db db' r h fresh in
          let here =
            find_first_holds (is_entry entry_id agent_id actor.org_id) db.entries orig found in
          let this : orig.id ≡ entry_id = ground arith in
          absurd (
            twin_refused env (reversal_entry env actor orig (trim_space note) agent_id) entry_id db
              i s (ap some this) twice inserted)
    ]

-- In a ledger whose amounts can be negated in an int64, a reversal that is carried out (and not replayed)
-- writes the exact opposite of a handover or an adjustment of this agent: the agent's balance moves back
-- by that entry's amount, no other agent's balance moves, the ledger only grows, and the entry counts as
-- reversed from then on.
pub reverse_entry_cancels :
    (env : Env) (actor : Actor) (agent_id other entry_id : ℕ) (note key : Text) (db db' : Db)
    (r : Receipt)
    → other ≢ agent_id
    → All (λ e. IsNegatable e.amount) db.entries
    → reverse_entry env actor agent_id entry_id note key db ≡ (ok r, db')
    → r.replay ≡ false
    → (orig : Entry) × (find_first (is_entry entry_id agent_id actor.org_id) db.entries ≡ some orig)
      × (is_reversible orig.kind ≡ true)
      × Moves agent_id other (pos 0 -ℤ orig.amount) db.entries db'.entries
      × (is_reversed db'.entries entry_id ≡ true)
unfolding new_entry
reverse_entry_cancels env actor agent_id other entry_id note key db db' r n bounded h fresh =
    let (orig, s, found, may, i, inserted, same) =
      reverse_entry_steps env actor agent_id entry_id note key db db' r h fresh in
    let here = find_first_holds (is_entry entry_id agent_id actor.org_id) db.entries orig found in
    let this : orig.id ≡ entry_id = ground arith in
    let e = reversal_entry env actor orig (trim_space note) agent_id in
    let exact = neg64_id orig.amount (
      IsNegatable-Fits64 _ (
        All_find_first (λ e. IsNegatable e.amount) (is_entry entry_id agent_id actor.org_id)
          db.entries bounded found)) in
    (
      orig,
      found,
      may,
      subst (λ t. Moves agent_id other t db.entries db'.entries) exact
          (Moves-of_Posts agent_id other (neg64 orig.amount) db s db'.entries n
            (insert_entry-Posts env 0 e db s i inserted) same),
      rw same (
          subst (λ k. is_reversed s.entries k ≡ true) this
            (insert_is_reversed env e orig.id db i s refl inserted)),
    )
