-- ===== src/Router/Health/Laws.antt =====
-- What an outage gives back to a customer (services/router_health.go: `CompensateOutage`).
use zyranet_api.Base.{
  ℕ, ◌+◌, ◌-◌, ◌≤◌, ◌<◌, ◌≡◌, refl, ◌&&◌, Bool, true, false, some, List, [], ◌∷◌, ◌==◌, arith,
  find_first, count_where, update_where, opt_eq, Bool-cases, inl, inr, ltb,
}
use zyranet_api.Models.{Customer, CustomerStatus}
use zyranet_api.Router.Health.{
  new_expiry, min_of, max_outage_compensation, compensate_one, HealthDb, HealthEnv, restored,
  is_paid_plan, update_customer,
}

abbrev pub has_id : ℕ → Customer → Bool
has_id id r = r.id == id

-- The row as it was read.
abbrev is_as_read : ℕ → ℕ → Customer → Bool
is_as_read id e r = r.id == id && opt_eq r.expires_at (some e)

none_as_read :
    (id e : ℕ) (rows : List Customer)
    → count_where (has_id id) rows ≡ 0
    → count_where (is_as_read id e) rows ≡ 0
none_as_read id e [] h = refl
none_as_read id e (r ∷ rows) h = ground (arith, none_as_read id e rows)

one_as_read :
    (id e : ℕ) (rows : List Customer) (c : Customer)
    → find_first (has_id id) rows ≡ some c
    → c.expires_at ≡ some e
    → count_where (has_id id) rows ≡ 1
    → count_where (is_as_read id e) rows ≡ 1
one_as_read id e [] c found ends one = absurd (ground arith)
one_as_read id e (r ∷ rows) c found ends one = elim (Bool-cases (r.id == id)) [
  | inl hit ↦ ground (arith, none_as_read id e rows)
  | inr miss ↦ ground (arith, one_as_read id e rows c)
]

restored_found :
    (id e start end : ℕ) (rows : List Customer) (c : Customer)
    → find_first (has_id id) rows ≡ some c
    → c.expires_at ≡ some e
    → find_first (has_id id) (update_where (is_as_read id e) (restored start end e) rows)
      ≡ some (restored start end e c)
restored_found id e start end [] c found ends = absurd (ground arith)
restored_found id e start end (r ∷ rows) c found ends = elim (Bool-cases (r.id == id)) [
  | inl hit ↦ ground arith
  | inr miss ↦ ground (arith, restored_found id e start end rows c)
]

others_kept :
    (id i e start end : ℕ) (rows : List Customer)
    → (i == id) ≡ false
    → find_first (has_id i) (update_where (is_as_read id e) (restored start end e) rows)
      ≡ find_first (has_id i) rows
others_kept id i e start end [] other = refl
others_kept id i e start end (r ∷ rows) other = elim (Bool-cases (r.id == id)) [
  | inl hit ↦ ground (arith, others_kept id i e start end rows)
  | inr miss ↦ ground (arith, others_kept id i e start end rows)
]

new_expiry_bounds :
    (start end e : ℕ)
    → start < end
    → start < e
    → (new_expiry start end e
        ≡ end + (e - end) + min_of (min_of e end - start) max_outage_compensation)
      × (new_expiry start end e ≤ end + (e - start))
      × (e < new_expiry start end e)
      × (end < new_expiry start end e)
unfolding new_expiry
new_expiry_bounds start end e h k = (ground arith, ground arith, ground arith, ground arith)

lost_time :
    (start end e : ℕ)
    → start < end
    → start < e
    → ltb start (min_of e (start + min_of (end - start) max_outage_compensation)) ≡ true
lost_time start end e h k = ground arith

-- The time that a plan which ended at `e` and was running at `start` gets, up to `e'`.
abbrev pub IsRestoredTo : ℕ → ℕ → ℕ → ℕ → Type 0
IsRestoredTo start end e e' =
    (e' ≡ end + (e - end) + min_of (min_of e end - start) max_outage_compensation)
    × (e' ≤ end + (e - start))
    × (e < e')
    × (end < e')

-- What compensation leaves of a customer's row, for a plan that was paid for or not; `i` is somebody
-- else's id.
abbrev pub IsCompensated :
    Bool → (start end e i : ℕ) → Customer → ℕ × HealthDb → ℕ × HealthDb → Type 0
IsCompensated true start end e i c before after =
    (c' : Customer) × (e' : ℕ) × (find_first (has_id c.id) after.1.customers ≡ some c')
    × (c'.expires_at ≡ some e')
    × (c'.status ≡ CustomerStatus.active)
    × IsRestoredTo start end e e'
    × (find_first (has_id i) after.1.customers ≡ find_first (has_id i) before.1.customers)
IsCompensated false start end e i c before after = after ≡ before

-- An outage from `start` to `end`, and one of the customers who are read for it, whose row is still as
-- it was read, is the only one of its id, and can be written: on a plan that was paid for and that ran
-- beyond `start`, the row becomes active and ends later by the time that the outage took of the plan (up
-- to the cap of seven days), counted from `end` or from the old end, whichever is later, so that the
-- plan does not end sooner than it did, does not end at once, and has no more time left than it had at
-- `start`; nobody else's row changes. On a plan that was not paid for nothing changes.
pub compensate_one_restores :
    (env : HealthEnv) (start end e count i : ℕ) (c : Customer) (db : HealthDb)
    → start < end
    → start < e
    → c.expires_at ≡ some e
    → find_first (has_id c.id) db.customers ≡ some c
    → count_where (has_id c.id) db.customers ≡ 1
    → env.fails update_customer ≡ false
    → (i == c.id) ≡ false
    → IsCompensated
        (is_paid_plan (find_first (λ p. p.id == c.package_id) db.packages))
        start
        end
        e
        i
        c
        (count, db)
        (compensate_one env start end c (count, db))
compensate_one_restores env start end e count i c db h k ends found one works other =
    let single = one_as_read c.id e db.customers c found ends one in
    elim (Bool-cases (is_paid_plan (find_first (λ p. p.id == c.package_id) db.packages))) [
      | inl paid ↦
          rw (ends, paid, lost_time start end e h k, works, single)
            (
              restored start end e c,
              new_expiry start end e,
              restored_found c.id e start end db.customers c found ends,
              refl,
              refl,
              new_expiry_bounds start end e h k,
              others_kept c.id i e start end db.customers other,
            )
      | inr free ↦ rw (ends, free) refl
    ]
