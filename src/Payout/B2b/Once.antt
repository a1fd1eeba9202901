-- ===== src/Payout/B2b/Once.antt =====
-- Every sequence of calls about payouts, with their B2B requests in flight (services/payout.go).
use zyranet_api.Base.{
  Option, ℕ, suc, ◌+◌, ◌≤◌, ◌≡◌, refl, true, false, none, some, List, [], ◌∷◌, arith, ◌==◌,
  if◌then◌else◌, find_first, count_where,
}
use zyranet_api.Mpesa.Creds.{Creds, MpesaConfig, Setting}
use zyranet_api.Payout.Rows.{Status, pending, Payout, PayDb}
use zyranet_api.Payout.States.{PayEnv}
use zyranet_api.Payout.Invariant.{IsSound, status_of}
use zyranet_api.Payout.Runs.{Call, perform}
use zyranet_api.Payout.B2b.{SendResult, ready, stopped, Outside}
use zyranet_api.Payout.B2b.Send.{Answer, Request, start_b2b, finish_b2b}
use zyranet_api.Json.{Fields, FloatOps}
use zyranet_api.Payout.B2b.Result.{handle_b2b_result, handle_b2b_timeout}
use zyranet_api.Payout.B2b.Sound.{Moves, Moves-IsSound, Moves-is_sent, is_sent}
use zyranet_api.Payout.B2b.Steps.{is_refused}

-- The tables, the payouts whose request has had no answer yet, and those whose request Safaricom
-- has not clearly refused.
pub record Courier : Type 0 where
  pub db : PayDb
  pub in_flight : List ℕ
  pub standing : List ℕ

pub data SendCall (F : Type 0) : Type 0 where
  staff_call : Call → SendCall F
  start : MpesaConfig → Outside → Creds → List Setting → (id staff_id : ℕ) → SendCall F
  finish : (id : ℕ) → Answer → SendCall F
  result : Fields F → SendCall F
  timeout : Fields F → SendCall F

abbrev pub count_of : ℕ → List ℕ → ℕ
count_of i = count_where (λ j. j == i)

abbrev pub drop_one : ℕ → List ℕ → List ℕ
drop_one i [] = []
drop_one i (j ∷ js) = if j == i then js else j ∷ drop_one i js

abbrev pub after_start : SendResult Request × PayDb → Courier → Courier
after_start (stopped e, db) st = record st { db = db }
after_start (ready r, db) st = record st { db = db; in_flight = r.payout_id ∷ st.in_flight }

-- An answer needs a request that is in flight.
abbrev pub after_answer : PayEnv → ℕ → Answer → Courier → Courier
after_answer env id answer st = if count_of id st.in_flight == 0 then st else record {
  db = (finish_b2b env id answer st.db).1;
  in_flight = drop_one id st.in_flight;
  standing = if is_refused answer then st.standing else id ∷ st.standing;
}

module _ {F : Type 0} (floats : FloatOps F) where
  unfoldable pub deliver : PayEnv → SendCall F → Courier → Courier
  deliver env (staff_call c) st = record st { db = perform env c st.db }
  deliver env (start cfg out creds settings id staff_id) st =
      after_start (start_b2b env cfg out creds settings id staff_id st.db) st
  deliver env (finish id answer) st = after_answer env id answer st
  deliver env (result payload) st = record st {
    db = (handle_b2b_result floats env payload st.db).1;
  }
  deliver env (timeout payload) st = record st { db = handle_b2b_timeout floats env payload st.db }

  unfoldable pub deliver_all : List (PayEnv × SendCall F) → Courier → Courier
  deliver_all [] st = st
  deliver_all ((env, c) ∷ cs) st = deliver_all cs (deliver env c st)

-- The requests of a payout that may have reached Safaricom.
abbrev pub sends : ℕ → Courier → ℕ
sends i st = count_of i st.in_flight + count_of i st.standing

-- How many such requests a payout of a status may have.
abbrev pub allowed_sends : Option Status → ℕ
allowed_sends (some pending) = 0
allowed_sends _ = 1

-- The tables are sound, no payout has two such requests, and one that has one does not wait to be sent.
pub record IsOnce (st : Courier) : Type 0 where
  pub sound : IsSound st.db
  pub once : (i : ℕ) → sends i st ≤ 1
  pub gone : (i : ℕ) → 1 ≤ sends i st → is_sent (status_of i st.db.payouts) ≡ true

pub count_of-drop_one_same :
    (i : ℕ) (js : List ℕ)
    → (count_of i js == 0) ≡ false
    → suc (count_of i (drop_one i js)) ≡ count_of i js
count_of-drop_one_same i [] h = absurd (ground arith)
count_of-drop_one_same i (j ∷ js) h = ground (arith, count_of-drop_one_same i js)

pub count_of-drop_one_other :
    (i k : ℕ) (js : List ℕ) → (k == i) ≡ false → count_of k (drop_one i js) ≡ count_of k js
count_of-drop_one_other i k [] h = refl
count_of-drop_one_other i k (j ∷ js) h = ground (arith, count_of-drop_one_other i k js)

pub status_of-found :
    (id : ℕ) (xs : List Payout) (p : Payout)
    → find_first (λ p. p.id == id) xs ≡ some p
    → status_of id xs ≡ some p.status
status_of-found id [] p h = absurd (ground arith)
status_of-found id (x ∷ xs) p h = ground (arith, status_of-found id xs p)

-- Tables that change without a new request, and put nothing back.
pub same_requests-IsOnce :
    (st : Courier) (db : PayDb)
    → IsSound db
    → ((j : ℕ)
        → is_sent (status_of j st.db.payouts) ≡ true
        → is_sent (status_of j db.payouts) ≡ true)
    → IsOnce st
    → IsOnce (record st { db = db })
same_requests-IsOnce st db sound sent v = record {
  sound = sound;
  once = v.once;
  gone = λ i h. sent i (v.gone i h);
}

pub moved-IsOnce :
    (st : Courier) (db : PayDb) → Moves none st.db db → IsOnce st → IsOnce (record st { db = db })
moved-IsOnce st db m v =
    same_requests-IsOnce st db (Moves-IsSound none st.db db m v.sound)
      (λ j h. Moves-is_sent none st.db db j m (λ e. ground arith) h) v
