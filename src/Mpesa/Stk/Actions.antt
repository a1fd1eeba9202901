-- ===== src/Mpesa/Stk/Actions.antt =====
-- The changes of routers that are owed to customers who have paid (services/router_actions.go). What a
-- router answers is a parameter: nothing, or an error.
pub mod Uses
pub mod Tries
use zyranet_api.Base.{
  ℕ, zero, suc, ◌+◌, ◌*◌, Bool, true, false, not, ◌&&◌, ◌||◌, Option, none, some, List, [], ◌∷◌,
  ◌++◌, ltb, leb, ◌==◌, if◌then◌else◌, map, find_first, first_rows, select, count_where,
  update_where, length,
}
use zyranet_api.Text.{Text, bytes, decimal, to_upper}
use zyranet_api.Text.Cut.{take}
use zyranet_api.Models.{Zone, Package, Voucher, Customer}
use zyranet_api.Router.Health.{second}
use zyranet_api.Mpesa.Stk.Rows.{
  StkState, StkEnv, RouterAction, ActionKind, ActionStatus, waiting, running, done, gave_up,
  whitelist_mac, push_voucher, reactivate_customer, find_zone, claim_action, read_action,
  finish_action, requeue_actions, find_actions, find_package, find_voucher, find_customer,
}

-- `database_error` is the text of the error of a query that fails or finds nothing.
pub record RouterPusher : Type 0 where
  pub whitelist_mac : Zone → Text → Package → Option Text
  pub push_hotspot_users : Zone → List Voucher → Option Text
  pub reactivate_customer : Zone → Customer → Option Text
  pub database_error : Text

-- The waits before the retries.
abbrev pub router_action_backoff : List ℕ
router_action_backoff =
    30 * second
    ∷ 60 * second
    ∷ 120 * second
    ∷ 300 * second
    ∷ 600 * second
    ∷ 1200 * second
    ∷ 1800 * second
    ∷ []

-- The wait numbered `n`, from 0.
abbrev pub backoff_at : ℕ → List ℕ → ℕ
backoff_at n [] = 0
backoff_at zero (w ∷ ws) = w
backoff_at (suc n) (w ∷ ws) = backoff_at n ws

abbrev pub with_colons : Text → Text
with_colons = map (λ c. if c == b'-' then b':' else c)

abbrev pub missing : Text → ℕ → Text → Text
missing what id error = what ++ decimal id ++ bytes " not found: " ++ error

abbrev pub is_waiting : ActionStatus → Bool
is_waiting waiting = true
is_waiting running = false
is_waiting done = false
is_waiting gave_up = false

abbrev pub is_running : ActionStatus → Bool
is_running running = true
is_running waiting = false
is_running done = false
is_running gave_up = false

module _ (env : StkEnv) (router : Option RouterPusher) where
  abbrev pub push_for : RouterPusher → Zone → Option ℕ → StkState → Option Text
  push_for r zone none s = some (bytes "no voucher to push")
  push_for r zone (some id) s =
      elim (if env.fails find_voucher then none else find_first (λ v. v.id == id) s.base.vouchers) [
        | none ↦ some (missing (bytes "voucher ") id r.database_error)
        | some v ↦ r.push_hotspot_users zone (v ∷ [])
      ]

  abbrev pub whitelist_for : RouterPusher → Zone → Text → Option ℕ → StkState → Option Text
  whitelist_for r zone mac none s = some (bytes "no package to whitelist with")
  whitelist_for r zone mac (some id) s =
      elim (if env.fails find_package then none else find_first (λ p. p.id == id) s.base.packages) [
        | none ↦ some (missing (bytes "package ") id r.database_error)
        | some pkg ↦ r.whitelist_mac zone (to_upper (with_colons mac)) pkg
      ]

  abbrev pub reactivate_for : RouterPusher → Zone → Option ℕ → StkState → Option Text
  reactivate_for r zone none s = some (bytes "no customer to reactivate")
  reactivate_for r zone (some id) s =
      elim (if env.fails find_customer
        then none
        else find_first (λ c. c.id == id) s.base.customers) [
          | none ↦ some (missing (bytes "customer ") id r.database_error)
          | some c ↦ r.reactivate_customer zone c
        ]

  abbrev pub execute_in : RouterPusher → Zone → ActionKind → RouterAction → StkState → Option Text
  execute_in r zone whitelist_mac a s = whitelist_for r zone a.mac_address a.package_id s
  execute_in r zone push_voucher a s = push_for r zone a.voucher_id s
  execute_in r zone reactivate_customer a s = reactivate_for r zone a.customer_id s

  -- The error of an attempt, if there is one.
  unfoldable pub execute_router_action : RouterAction → StkState → Option Text
  execute_router_action a s = elim router [
    | none ↦ some (bytes "no router client configured")
    | some r ↦
        elim (if env.fails find_zone
          then none
          else find_first (λ z. z.id == a.zone_id) s.base.zones) [
            | none ↦ some (missing (bytes "zone ") a.zone_id r.database_error)
            | some zone ↦ execute_in r zone a.action a s
          ]
  ]

  abbrev pub is_claimable : ℕ → RouterAction → Bool
  is_claimable id a = a.id == id && is_waiting a.status && leb a.next_attempt_at env.now

  abbrev pub claimed : RouterAction → RouterAction
  claimed a = record a { status = running; updated_at = env.now }

  -- `a` is the action as it was read, `r` the row that is written.
  unfoldable pub finished : RouterAction → Option Text → RouterAction → RouterAction
  finished a none r = record r {
    status = done;
    attempts = suc a.attempts;
    last_error = [];
    updated_at = env.now;
  }
  finished a (some error) r =
      let gives_up = ltb (length router_action_backoff) (suc a.attempts) in
      record r {
        status = if gives_up then gave_up else waiting;
        attempts = suc a.attempts;
        last_error = take 500 error;
        next_attempt_at =
            if gives_up
            then r.next_attempt_at
            else env.now + backoff_at a.attempts router_action_backoff;
        updated_at = env.now;
      }

  abbrev pub attempt : ℕ → Option RouterAction → StkState → StkState
  attempt id none s = s
  attempt id (some a) s = if env.fails finish_action then s else record s {
    actions = update_where (λ r. r.id == id) (finished a (execute_router_action a s)) s.actions;
  }

  abbrev pub claim : ℕ → StkState → StkState
  claim id s = record s { actions = update_where (is_claimable id) claimed s.actions }

  abbrev pub read_claimed : ℕ → StkState → Option RouterAction
  read_claimed id s = if env.fails read_action then none else find_first (λ a. a.id == id) s.actions

  -- One attempt; the row is claimed first.
  unfoldable pub run_router_action : ℕ → StkState → StkState
  run_router_action id s =
      if env.fails claim_action || count_where (is_claimable id) s.actions == 0
      then s
      else attempt id (read_claimed id (claim id s)) (claim id s)

  -- A row that has been running for five minutes belongs to a process that has died.
  abbrev pub is_stale : RouterAction → Bool
  is_stale a = is_running a.status && ltb (a.updated_at + 300 * second) env.now

  unfoldable pub requeue_stale : StkState → StkState
  requeue_stale s = if env.fails requeue_actions then s else record s {
    actions =
        update_where is_stale (λ a. record a { status = waiting; updated_at = env.now }) s.actions;
  }

  abbrev pub due_actions : StkState → List RouterAction
  due_actions s =
      if env.fails find_actions
      then []
      else first_rows 50
          (select (λ a. is_waiting a.status && leb a.next_attempt_at env.now) s.actions)

-- Each attempt meets an environment of its own.
unfoldable pub run_each :
    (ℕ → StkEnv × Option RouterPusher) → ℕ → List RouterAction → StkState → StkState
run_each calls i [] s = s
run_each calls i (a ∷ rest) s =
    run_each calls (suc i) rest (run_router_action (calls i).0 (calls i).1 a.id s)

unfoldable pub run_due_router_actions :
    StkEnv → (ℕ → StkEnv × Option RouterPusher) → StkState → StkState
run_due_router_actions env calls s =
    let ready = requeue_stale env none s in run_each calls 0 (due_actions env none ready) ready
