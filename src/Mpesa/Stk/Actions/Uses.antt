-- ===== src/Mpesa/Stk/Actions/Uses.antt =====
-- What one try of a change of a router leaves of its row (services/router_actions.go).
use zyranet_api.Base.{
  ℕ, find_first_holds, suc, ◌+◌, ◌-◌, ◌≤◌, ◌≡◌, refl, subst, Bool, true, false, not, ◌&&◌, Option,
  none, some, List, [], ◌∷◌, ◌==◌, arith, Bool-cases, Option-cases, inl, inr, update_where,
  count_where, some-injective, ap, ◌∙◌, find_first, if◌then◌else◌,
}
use zyranet_api.Text.{Text}
use zyranet_api.Mpesa.Stk.Rows.{
  StkState, StkEnv, RouterAction, waiting, running, done, gave_up, requeue_actions, claim_action,
  finish_action, read_action,
}
use zyranet_api.Mpesa.Stk.Actions.{
  RouterPusher, requeue_stale, attempt, claim, claimed, finished, is_claimable, is_stale,
  read_claimed, execute_router_action, is_waiting,
}

-- How many tries an action still has: the first one and seven retries.
abbrev pub tries_left : RouterAction → ℕ
tries_left a = elim a.status [
  | waiting ↦ suc (7 - a.attempts)
  | running ↦ suc (7 - a.attempts)
  | done ↦ 0
  | gave_up ↦ 0
]

abbrev pub has_id : ℕ → RouterAction → Bool
has_id id a = a.id == id

-- The only action of this id.
abbrev pub IsOnly : ℕ → RouterAction → List RouterAction → Type 0
IsOnly id a rows = (find_first (has_id id) rows ≡ some a) × (count_where (has_id id) rows ≡ 1)

-- The router is asked for action `j` in a run of action `id`: the row waits and is due, and is claimed
-- and read.
abbrev pub tries_in_run : StkEnv → ℕ → ℕ → StkState → ℕ
tries_in_run env j id s =
    if id == j
      && not (env.fails claim_action)
      && not (env.fails read_action)
      && not (count_where (is_claimable env none id) s.actions == 0)
    then 1
    else 0

updated-IsOnly :
    (id : ℕ) (test : RouterAction → Bool) (f : RouterAction → RouterAction) (a : RouterAction)
    (rows : List RouterAction)
    → ((r : RouterAction) → (f r).id ≡ r.id)
    → IsOnly id a rows
    → IsOnly id (if test a then f a else a) (update_where test f rows)
updated-IsOnly id test f a rows keeps h = (found rows h.0, counted rows ∙ h.1)
  where
    same_id : (r : RouterAction) → has_id id (if test r then f r else r) ≡ has_id id r
    same_id r = elim (Bool-cases (test r)) [
      | inl hit ↦ rw (hit, keeps r) refl
      | inr miss ↦ rw miss refl
    ]

    found :
        (rows : List RouterAction)
        → find_first (has_id id) rows ≡ some a
        → find_first (has_id id) (update_where test f rows) ≡ some (if test a then f a else a)
    found [] h = absurd (ground arith)
    found (r ∷ rows) h = elim (Bool-cases (has_id id r)) [
      | inl hit ↦
          let this : r ≡ a = some-injective r a (rw hit at h) in
          rw (same_id r, hit) (ap (λ x. some (if test x then f x else x)) this)
      | inr miss ↦ rw (same_id r, miss) (found rows (rw miss at h))
    ]

    counted :
        (rows : List RouterAction)
        → count_where (has_id id) (update_where test f rows) ≡ count_where (has_id id) rows
    counted [] = refl
    counted (r ∷ rows) = rw (same_id r, counted rows) refl

none_claimable :
    (env : StkEnv) (id : ℕ) (rows : List RouterAction)
    → count_where (has_id id) rows ≡ 0
    → count_where (is_claimable env none id) rows ≡ 0
none_claimable env id [] h = refl
none_claimable env id (r ∷ rows) h = ground (arith, none_claimable env id rows)

-- Of the rows that can be claimed under the id of the only row, that row is one.
pub claimable_only :
    (env : StkEnv) (id : ℕ) (a : RouterAction) (rows : List RouterAction)
    → IsOnly id a rows
    → (count_where (is_claimable env none id) rows == 0) ≡ false
    → is_claimable env none id a ≡ true
claimable_only env id a [] h some_due = absurd (ground arith)
claimable_only env id a (r ∷ rows) h some_due = elim (Bool-cases (r.id == id)) [
  | inl hit ↦
      let this : r ≡ a = some-injective r a (rw hit at h.0) in
      let alone : count_where (has_id id) rows ≡ 0 = ground arith in
      let rest = none_claimable env id rows alone in
      subst (λ x. is_claimable env none id x ≡ true) this (ground arith)
  | inr miss ↦ claimable_only env id a rows (ground arith, ground arith) (ground arith)
]

-- One step: the only row of the id stays so, and what it was tried is gone from what it has left.
abbrev pub UsesTries : ℕ → RouterAction → (tries : ℕ) → StkState → Type 0
UsesTries j a tries s =
    (a' : RouterAction) × IsOnly j a' s.actions × (tries + tries_left a' ≤ tries_left a)

pub requeue_uses :
    (env : StkEnv) (j : ℕ) (a : RouterAction) (s : StkState)
    → IsOnly j a s.actions
    → UsesTries j a 0 (requeue_stale env none s)
unfolding requeue_stale
requeue_uses env j a s h = elim (Bool-cases (env.fails requeue_actions)) [
  | inl failing ↦ rw failing (a, h, omega arith)
  | inr works ↦
      let back : RouterAction → RouterAction =
        λ r. record r { status = waiting; updated_at = env.now } in
      rw works (
        if is_stale env none a then back a else a,
        updated-IsOnly j (is_stale env none) back a s.actions (λ r. refl) h,
        ground arith,
      )
]

module _ (env : StkEnv) (router : Option RouterPusher) (j : ℕ) (a : RouterAction) where
  -- A run of another action leaves the row alone.
  other_row :
      (id : ℕ) (test : RouterAction → Bool) (f : RouterAction → RouterAction)
      (rows : List RouterAction)
      → ((r : RouterAction) → (f r).id ≡ r.id)
      → test a ≡ false
      → IsOnly j a rows
      → IsOnly j a (update_where test f rows)
  other_row id test f rows keeps miss h =
      subst (λ x. IsOnly j x (update_where test f rows)) (rw miss refl)
        (updated-IsOnly j test f a rows keeps h)

  finished-id :
      (b : RouterAction) (error : Option Text) (r : RouterAction)
      → (finished env router b error r).id ≡ r.id
  unfolding finished
  finished-id b none r = refl
  finished-id b (some error) r = refl

  -- A try that is recorded leaves one try less.
  finished_uses :
      (error : Option Text) (r : RouterAction)
      → is_waiting a.status ≡ true
      → 1 + tries_left (finished env router (claimed env router a) error r) ≤ tries_left a
  unfolding finished
  finished_uses none r h = ground arith
  finished_uses (some error) r h = ground arith

only_id :
    (j : ℕ) (a : RouterAction) (rows : List RouterAction) → IsOnly j a rows → (a.id == j) ≡ true
only_id j a rows h = find_first_holds (has_id j) rows a h.0

module _ (env : StkEnv) (router : Option RouterPusher) where
  pub other_run_uses :
      (j id : ℕ) (a : RouterAction) (s : StkState)
      → (id == j) ≡ false
      → IsOnly j a s.actions
      → IsOnly j a
          (attempt env router id
            (read_claimed env router id (claim env router id s))
            (claim env router id s)).actions
  other_run_uses j id a s other h =
      let own = only_id j a s.actions h in
      let elsewhere : (a.id == id) ≡ false = ground arith in
      let claimed_rows : IsOnly j a (claim env router id s).actions =
        other_row env router j a id (is_claimable env router id) (claimed env router) s.actions
          (λ r. refl) (ground arith) h in
      elim (Option-cases (read_claimed env router id (claim env router id s))) [
        | inl unread ↦ rw unread claimed_rows
        | inr (b, read) ↦ elim (Bool-cases (env.fails finish_action)) [
          | inl failing ↦ rw (read, failing) claimed_rows
          | inr works ↦
              let error = execute_router_action env router b (claim env router id s) in
              rw (read, works)
                (other_row env router j a id (λ r. r.id == id) (finished env router b error)
                  (claim env router id s).actions (finished-id env router j a b error) elsewhere
                  claimed_rows)
        ]
      ]

  pub own_run_uses :
      (j : ℕ) (a : RouterAction) (s : StkState)
      → is_claimable env router j a ≡ true
      → env.fails finish_action ≡ false
      → IsOnly j a s.actions
      → UsesTries j a (if not (env.fails read_action) && true then 1 else 0) (
          attempt env router j
            (read_claimed env router j (claim env router j s))
            (claim env router j s))
  own_run_uses j a s due works h =
      let claimed_rows : IsOnly j (claimed env router a) (claim env router j s).actions =
        subst (λ x. IsOnly j x (claim env router j s).actions) (rw due refl)
          (updated-IsOnly j (is_claimable env router j) (claimed env router) a s.actions (λ r. refl)
            h) in
      elim (Bool-cases (env.fails read_action)) [
        | inl unread ↦ rw unread (claimed env router a, claimed_rows, ground arith)
        | inr reads ↦
            let error =
              execute_router_action env router (claimed env router a) (claim env router j s) in
            let own : (a.id == j) ≡ true = only_id j a s.actions h in
            rw (reads, claimed_rows.0, works)
              (
                finished env router (claimed env router a) error (claimed env router a),
                subst
                    (λ x. IsOnly j x (
                      update_where (λ r. r.id == j)
                        (finished env router (claimed env router a) error)
                        (claim env router j s).actions))
                    (rw own refl)
                    (updated-IsOnly j (λ r. r.id == j)
                      (finished env router (claimed env router a) error) (claimed env router a)
                      (claim env router j s).actions
                      (finished-id env router j a (claimed env router a) error) claimed_rows),
                finished_uses env router j a error (claimed env router a) (ground arith),
              )
      ]
