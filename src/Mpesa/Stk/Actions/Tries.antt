-- ===== src/Mpesa/Stk/Actions/Tries.antt =====
-- How often a change of a router is tried (services/router_actions.go).
use zyranet_api.Base.{
  ℕ, ==→eq, All, suc, ◌+◌, ◌≤◌, ◌≡◌, sym, subst, true, false, not, ◌&&◌, Option, none, List, [],
  ◌∷◌, ◌==◌, arith, Bool-cases, inl, inr, count_where, if◌then◌else◌,
}
use zyranet_api.Mpesa.Stk.Rows.{
  StkState, StkEnv, RouterAction, claim_action, finish_action, read_action,
}
use zyranet_api.Mpesa.Stk.Actions.{
  RouterPusher, run_router_action, run_each, run_due_router_actions, requeue_stale, attempt, claim,
  is_claimable, read_claimed, due_actions,
}
use zyranet_api.Mpesa.Stk.Actions.Uses.{
  tries_left, IsOnly, tries_in_run, claimable_only, UsesTries, requeue_uses, other_run_uses,
  own_run_uses,
}

-- Steps one after the other.
then_uses :
    (j m n : ℕ) (a a' : RouterAction) (s : StkState)
    → m + tries_left a' ≤ tries_left a
    → UsesTries j a' n s
    → UsesTries j a (m + n) s
then_uses j m n a a' s first (a'', only, second) = (a'', only, omega (arith, first, second))

run_uses :
    (env : StkEnv) (router : Option RouterPusher) (j id : ℕ) (a : RouterAction) (s : StkState)
    → env.fails finish_action ≡ false
    → IsOnly j a s.actions
    → UsesTries j a (tries_in_run env j id s) (run_router_action env router id s)
unfolding run_router_action
run_uses env router j id a s works h = elim (Bool-cases (env.fails claim_action)) [
  | inl failing ↦ rw (run_router_action, failing) (a, h, ground arith)
  | inr claims ↦ elim (Bool-cases (count_where (is_claimable env router id) s.actions == 0)) [
    | inl idle ↦ rw (run_router_action, claims, idle) (a, h, ground arith)
    | inr some_due ↦ elim (Bool-cases (id == j)) [
      | inl same ↦
          let this : j ≡ id = sym (==→eq id j same) in
          rw (run_router_action, claims, some_due, same)
            (subst
              (λ i. UsesTries j a (if not (env.fails read_action) && true then 1 else 0) (
                attempt env router i (read_claimed env router i (claim env router i s))
                  (claim env router i s)))
              this
              (own_run_uses env router j a s
                (claimable_only env j a s.actions h (
                  subst (λ i. (count_where (is_claimable env none i) s.actions == 0) ≡ false)
                    (sym this) some_due))
                works h))
      | inr other ↦
          rw (run_router_action, claims, some_due, other)
            (a, other_run_uses env router j id a s other h, ground arith)
    ]
  ]
]

-- The tries of action `j` in the runs of these actions.
unfoldable pub tries_in_each :
    (ℕ → StkEnv × Option RouterPusher) → ℕ → ℕ → List RouterAction → StkState → ℕ
tries_in_each calls j i [] s = 0
tries_in_each calls j i (a ∷ rest) s =
    tries_in_run (calls i).0 j a.id s
    + tries_in_each calls j (suc i) rest (run_router_action (calls i).0 (calls i).1 a.id s)

run_each_uses :
    (calls : ℕ → StkEnv × Option RouterPusher) (j i : ℕ) (rows : List RouterAction)
    (a : RouterAction) (s : StkState)
    → ((k : ℕ) → (calls k).0.fails finish_action ≡ false)
    → IsOnly j a s.actions
    → UsesTries j a (tries_in_each calls j i rows s) (run_each calls i rows s)
unfolding tries_in_each run_each
run_each_uses calls j i [] a s works h = (a, h, omega arith)
run_each_uses calls j i (r ∷ rest) a s works h =
    let next = run_router_action (calls i).0 (calls i).1 r.id s in
    let first = run_uses (calls i).0 (calls i).1 j r.id a s (works i) h in
    then_uses j (tries_in_run (calls i).0 j r.id s) (tries_in_each calls j (suc i) rest next) a
      first.0 (run_each calls (suc i) rest next) first.2
      (run_each_uses calls j (suc i) rest first.0 next works first.1)

-- What tries actions: the attempt right after one is queued, and the job.
pub data QueueCall : Type 0 where
  run : StkEnv → Option RouterPusher → ℕ → QueueCall
  run_due : StkEnv → (ℕ → StkEnv × Option RouterPusher) → QueueCall

unfoldable pub serve_queue : QueueCall → StkState → StkState
serve_queue (run env router id) s = run_router_action env router id s
serve_queue (run_due env calls) s = run_due_router_actions env calls s

unfoldable pub work_off : List QueueCall → StkState → StkState
work_off [] s = s
work_off (c ∷ cs) s = work_off cs (serve_queue c s)

-- How often a router is asked for action `j`.
unfoldable pub tries_in : ℕ → QueueCall → StkState → ℕ
tries_in j (run env router id) s = tries_in_run env j id s
tries_in j (run_due env calls) s =
    let ready = requeue_stale env none s in
    tries_in_each calls j 0 (due_actions env none ready) ready

unfoldable pub tries_in_all : ℕ → List QueueCall → StkState → ℕ
tries_in_all j [] s = 0
tries_in_all j (c ∷ cs) s = tries_in j c s + tries_in_all j cs (serve_queue c s)

-- The writes of what came out of a try do not fail.
abbrev pub Records : QueueCall → Type 0
Records (run env router id) = env.fails finish_action ≡ false
Records (run_due env calls) = (k : ℕ) → (calls k).0.fails finish_action ≡ false

serve_uses :
    (j : ℕ) (c : QueueCall) (a : RouterAction) (s : StkState)
    → Records c
    → IsOnly j a s.actions
    → UsesTries j a (tries_in j c s) (serve_queue c s)
unfolding serve_queue tries_in run_due_router_actions
serve_uses j (run env router id) a s works h = run_uses env router j id a s works h
serve_uses j (run_due env calls) a s works h =
    let ready = requeue_stale env none s in
    let first = requeue_uses env j a s h in
    let rest = run_each_uses calls j 0 (due_actions env none ready) first.0 ready works first.1 in
    (rest.0, rest.1, omega (arith, first.2, rest.2))

-- Through any calls of the queue, whatever the routers answer and whatever statements fail but the
-- writes of what came out of a try: the routers are asked for an action at most as often as it had tries
-- left, which is eight times for a new one; each time it is asked uses one up.
pub work_off-UsesTries :
    (calls : List QueueCall) (j : ℕ) (a : RouterAction) (s : StkState)
    → All Records calls
    → IsOnly j a s.actions
    → UsesTries j a (tries_in_all j calls s) (work_off calls s)
unfolding work_off tries_in_all
work_off-UsesTries [] j a s works h = (a, h, omega arith)
work_off-UsesTries (c ∷ cs) j a s works h =
    let first = serve_uses j c a s works.0 h in
    then_uses j (tries_in j c s) (tries_in_all j cs (serve_queue c s)) a first.0
      (work_off cs (serve_queue c s)) first.2
      (work_off-UsesTries cs j first.0 (serve_queue c s) works.1 first.1)
