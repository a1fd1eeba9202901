-- ===== src/Payout/Runs.antt =====
-- Every sequence of calls of the service (services/payout.go: `CreatePayout`, `Cancel`, `Fail`,
-- `MarkPaid`), each in an environment of its own.
use zyranet_api.Base.{
  ℕ, ◌≡◌, refl, sym, List, [], ◌∷◌, arith, ◌==◌, find_first, Option-cases, inl, inr, subst, ◌⊎◌,
}
use zyranet_api.Text.{Text}
use zyranet_api.Payout.Price.{Float64}
use zyranet_api.Payout.Rows.{PayDb, PayResult, ok, err}
use zyranet_api.Payout.States.{PayEnv, cancel, fail_payout, mark_paid, create_payout, destination}
use zyranet_api.Payout.Invariant.{IsSound}
use zyranet_api.Payout.Laws.{cancel-IsSound, fail_payout-IsSound, mark_paid-IsSound}
use zyranet_api.Payout.Create.{created-IsSound}
use zyranet_api.Payout.Claims.{create_payout-Created}

pub data Call : Type 0 where
  create : (org_id staff_id : ℕ) (default : Float64) (min_amount : ℕ) → Call
  give_up : (id : ℕ) → Call
  report_failure : (id : ℕ) (reason : Text) → Call
  confirm : (id staff_id : ℕ) (reference : Text) → Call

-- The database after a call.
unfoldable pub perform : PayEnv → Call → PayDb → PayDb
perform env (create org_id staff_id default min_amount) db =
    (create_payout env org_id staff_id default min_amount db).1
perform env (give_up id) db = (cancel env id db).1
perform env (report_failure id reason) db = (fail_payout env id reason db).1
perform env (confirm id staff_id reference) db = (mark_paid env id staff_id reference db).1

unfoldable pub perform_all : List (PayEnv × Call) → PayDb → PayDb
perform_all [] db = db
perform_all ((env, c) ∷ cs) db = perform_all cs (perform env c db)

pub PayResult-cases :
    {A : Type 0} (r : PayResult A × PayDb)
    → ((p : A) × (r ≡ (ok p, r.1))) ⊎ ((e : _) × (r ≡ (err e, r.1)))
PayResult-cases (ok p, db) = inl (p, refl)
PayResult-cases (err e, db) = inr (e, refl)

pub create_payout_rolls_back :
    (env : PayEnv) (org_id staff_id : ℕ) (default : Float64) (min_amount : ℕ) (db db' : PayDb)
    (e : _)
    → create_payout env org_id staff_id default min_amount db ≡ (err e, db')
    → db' ≡ db
unfolding create_payout
create_payout_rolls_back env org_id staff_id default min_amount db db' e h =
    elim (Option-cases (find_first (λ o. o.id == org_id) db.orgs)) [
      | inl gone ↦ ground arith
      | inr (org, found) ↦ elim (Option-cases (destination org)) [
        | inl unset ↦ ground arith
        | inr (dest, set) ↦ ground arith
      ]
    ]

create_payout-IsSound :
    (env : PayEnv) (org_id staff_id : ℕ) (default : Float64) (min_amount : ℕ) (db : PayDb)
    → IsSound db
    → IsSound (create_payout env org_id staff_id default min_amount db).1
create_payout-IsSound env org_id staff_id default min_amount db v =
    elim (PayResult-cases (create_payout env org_id staff_id default min_amount db)) [
      | inl (p, made) ↦
          let c = create_payout-Created env org_id staff_id default min_amount db _ p made in
          subst IsSound (sym c.after) (created-IsSound org_id db p c.id c.status v)
      | inr (e, refused) ↦
          subst IsSound
            (sym (create_payout_rolls_back env org_id staff_id default min_amount db _ e refused)) v
    ]

pub perform-IsSound :
    (env : PayEnv) (c : Call) (db : PayDb) → IsSound db → IsSound (perform env c db)
unfolding perform
perform-IsSound env (create org_id staff_id default min_amount) db v =
    create_payout-IsSound env org_id staff_id default min_amount db v
perform-IsSound env (give_up id) db v = cancel-IsSound env id db v
perform-IsSound env (report_failure id reason) db v = fail_payout-IsSound env id reason db v
perform-IsSound env (confirm id staff_id reference) db v =
    mark_paid-IsSound env id staff_id reference db v

-- From a sound database, any calls in any order, whatever statements fail, lead to a sound database: no
-- two payouts share an id, every id is below the counter, and every payment that is claimed is claimed
-- by a payout that is pending, processing or completed.
pub perform_all-IsSound :
    (calls : List (PayEnv × Call)) (db : PayDb) → IsSound db → IsSound (perform_all calls db)
unfolding perform_all
perform_all-IsSound [] db v = v
perform_all-IsSound ((env, c) ∷ cs) db v =
    perform_all-IsSound cs (perform env c db) (perform-IsSound env c db v)
