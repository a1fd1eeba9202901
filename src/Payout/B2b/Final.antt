-- ===== src/Payout/B2b/Final.antt =====
-- A completed payout is final for B2B too (services/payout.go).
use zyranet_api.Base.{
  ℕ, ◌≡◌, refl, sym, ◌∙◌, none, some, List, [], ◌∷◌, ◌==◌, Bool-cases, inl, inr, subst,
}
use zyranet_api.Payout.Rows.{processing, completed, PayDb}
use zyranet_api.Payout.States.{PayEnv, is_pending}
use zyranet_api.Payout.Invariant.{status_of}
use zyranet_api.Payout.Settled.{StaysPaid, perform-StaysPaid}
use zyranet_api.Payout.B2b.{SendResult}
use zyranet_api.Payout.B2b.Send.{Request, Answer, sent_now, finish_b2b}
use zyranet_api.Json.{FloatOps}
use zyranet_api.Payout.B2b.Sound.{Moves, Moves-StaysPaid, changes}
use zyranet_api.Payout.B2b.Steps.{
  finish_b2b-Moves, handle_b2b_result-Moves, handle_b2b_timeout-Moves,
}
use zyranet_api.Payout.B2b.Once.{
  Courier, SendCall, staff_call, start, finish, result, timeout, count_of, after_start,
  after_answer, deliver, deliver_all, IsOnce,
}
use zyranet_api.Payout.B2b.Starts.{StartCases, start_b2b-cases}
use zyranet_api.Payout.B2b.Single.{deliver-IsOnce}

start-StaysPaid :
    (i id staff_id : ℕ) (r : SendResult Request × PayDb) (st : Courier)
    → StartCases id staff_id st.db r
    → status_of i st.db.payouts ≡ some completed
    → StaysPaid i st.db (after_start r st).db
start-StaysPaid i id staff_id r st (inl (e, refused)) h =
    rw refused (record { status = h; payments = refl })
start-StaysPaid i id staff_id r st (inr (q, left, s)) h = rw left (
    Moves-StaysPaid none st.db r.1 i
      (subst (Moves none st.db) (sym s.after) (
        changes id is_pending processing (sent_now staff_id) refl refl refl (λ p. refl)
          (λ p. refl)))
      h)

after_answer-StaysPaid :
    (env : PayEnv) (i id : ℕ) (answer : Answer) (st : Courier)
    → status_of i st.db.payouts ≡ some completed
    → StaysPaid i st.db (after_answer env id answer st).db
after_answer-StaysPaid env i id answer st h = elim (Bool-cases (count_of id st.in_flight == 0)) [
  | inl idle ↦ rw idle (record { status = h; payments = refl })
  | inr waiting ↦ rw waiting (
      Moves-StaysPaid _ st.db (finish_b2b env id answer st.db).1 i
        (finish_b2b-Moves env id answer st.db) h)
]

module _ {F : Type 0} (floats : FloatOps F) where
  deliver-StaysPaid :
      (env : PayEnv) (c : SendCall F) (i : ℕ) (st : Courier)
      → IsOnce st
      → status_of i st.db.payouts ≡ some completed
      → StaysPaid i st.db (deliver floats env c st).db
  unfolding deliver
  deliver-StaysPaid env (staff_call c) i st v h = perform-StaysPaid env c i st.db v.sound h
  deliver-StaysPaid env (start cfg out creds settings id staff_id) i st v h =
      start-StaysPaid i id staff_id _ st
        (start_b2b-cases env cfg out creds settings id staff_id st.db) h
  deliver-StaysPaid env (finish id answer) i st v h = after_answer-StaysPaid env i id answer st h
  deliver-StaysPaid env (result payload) i st v h =
      Moves-StaysPaid none st.db _ i (handle_b2b_result-Moves floats env payload st.db v.sound) h
  deliver-StaysPaid env (timeout payload) i st v h =
      Moves-StaysPaid none st.db _ i (handle_b2b_timeout-Moves floats env payload st.db) h

  -- Once a payout is completed, no call about any payout (requests that are still in flight, their
  -- answers, late or repeated results and timeouts included) changes its status or the payments it
  -- has claimed.
  pub deliver_all-StaysPaid :
      (calls : List (PayEnv × SendCall F)) (i : ℕ) (st : Courier)
      → IsOnce st
      → status_of i st.db.payouts ≡ some completed
      → StaysPaid i st.db (deliver_all floats calls st).db
  unfolding deliver_all
  deliver_all-StaysPaid [] i st v h = record { status = h; payments = refl }
  deliver_all-StaysPaid ((env, c) ∷ cs) i st v h =
      let one = deliver-StaysPaid env c i st v h in
      let rest =
        deliver_all-StaysPaid cs i (deliver floats env c st) (deliver-IsOnce floats env c st v)
          one.status in
      record { status = rest.status; payments = rest.payments ∙ one.payments }
