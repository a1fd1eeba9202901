-- ===== src/Router/Watchdog/Cutoff.antt =====
-- Nobody whose time is up stays active (services/watchdog.go:
-- `runOverloadProtectionSweep`).
use zyranet_api.Base.{
  ℕ, subst, sym, ◌≡◌, Bool, true, false, List, [], ◌∷◌, ◌==◌, arith, update_where, select, All,
  Bool-cases, inl, inr, refl, exists_where,
}
use zyranet_api.Models.{Customer, CustomerStatus}
use zyranet_api.Router.Watchdog.Overload.{
  OnlineDb, OverloadEnv, find_expired, expire_customer, is_overdue, shut_off, shut_off_each,
  run_overload_protection_sweep, expire,
}

-- The customer is among these.
abbrev pub has_id : ℕ → List Customer → Bool
has_id id cs = exists_where (λ c. c.id == id) cs

-- Who is overdue is among these, who are still to be shut off.
abbrev pub AllListed : ℕ → List Customer → List Customer → Type 0
AllListed now left cs = All (λ c. is_overdue now c ≡ true → has_id c.id left ≡ true) cs

abbrev pub AllOnTime : ℕ → List Customer → Type 0
AllOnTime now cs = All (λ c. is_overdue now c ≡ false) cs

more_listed :
    (now : ℕ) (d : Customer) (left cs : List Customer)
    → AllListed now left cs
    → AllListed now (d ∷ left) cs
more_listed now d left [] h = tt
more_listed now d left (c ∷ cs) h =
    (λ late. let listed = h.0 late in ground arith, more_listed now d left cs h.1)

select-AllListed : (now : ℕ) (cs : List Customer) → AllListed now (select (is_overdue now) cs) cs
select-AllListed now [] = tt
select-AllListed now (c ∷ cs) =
    let kept = select-AllListed now cs in
    let found = select (is_overdue now) cs in
    elim (Bool-cases (is_overdue now c)) [
      | inl late ↦
          let both : select (is_overdue now) (c ∷ cs) ≡ c ∷ found = rw late refl in
          subst (λ left. AllListed now left (c ∷ cs)) (sym both)
            (λ _. ground arith, more_listed now c found cs kept)
      | inr early ↦
          let same : select (is_overdue now) (c ∷ cs) ≡ found = rw early refl in
          subst (λ left. AllListed now left (c ∷ cs)) (sym same)
            (λ late. absurd (ground arith), kept)
    ]

expire-AllListed :
    (env : OverloadEnv) (c : Customer) (left cs : List Customer)
    → env.fails expire_customer ≡ false
    → AllListed env.now (c ∷ left) cs
    → AllListed env.now left (expire env c.id cs)
expire-AllListed env c left [] works h = ground arith
expire-AllListed env c left (d ∷ cs) works h =
    let again = expire-AllListed env c left cs works h.1 in
    let rest : AllListed env.now left
        (update_where (λ e. e.id == c.id) (λ e. record e { status = CustomerStatus.expired }) cs) =
      rw works at again in
    rw works (elim (Bool-cases (d.id == c.id)) [
      | inl hit ↦ rw hit (λ late. absurd (ground arith), rest)
      | inr miss ↦ rw miss (λ late. let listed = h.0 late in ground arith, rest)
    ])

shut_off_each-AllListed :
    (env : OverloadEnv) (left : List Customer) (db : OnlineDb)
    → env.fails expire_customer ≡ false
    → AllListed env.now left db.customers
    → AllListed env.now [] (shut_off_each env left db).customers
unfolding shut_off
shut_off_each-AllListed env [] db works h = h
shut_off_each-AllListed env (c ∷ left) db works h =
    shut_off_each-AllListed env left (shut_off env c db) works
      (expire-AllListed env c left db.customers works h)

none_late : (now : ℕ) (cs : List Customer) → AllListed now [] cs → AllOnTime now cs
none_late now [] h = tt
none_late now (c ∷ cs) h = (ground arith, none_late now cs h.1)

-- After a run of the watchdog whose query and whose updates of customers do not fail, no customer whose
-- time is up is active, whether the sessions could be closed or not.
pub run_overload_protection_sweep-AllOnTime :
    (env : OverloadEnv) (db : OnlineDb)
    → env.fails find_expired ≡ false
    → env.fails expire_customer ≡ false
    → AllOnTime env.now (run_overload_protection_sweep env db).customers
unfolding run_overload_protection_sweep
run_overload_protection_sweep-AllOnTime env db found works =
    let late = select (is_overdue env.now) db.customers in
    rw found (
      none_late env.now (shut_off_each env late db).customers
        (shut_off_each-AllListed env late db works (select-AllListed env.now db.customers)))
