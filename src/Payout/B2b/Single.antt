-- ===== src/Payout/B2b/Single.antt =====
-- A payout is sent once (services/payout.go: `SendB2B` among all calls of the service).
use zyranet_api.Base.{
  ℕ, ◌+◌, ◌≤◌, ◌≡◌, ◌≢◌, refl, sym, Bool, true, false, ◌&&◌, Option, none, some, List, [], ◌∷◌,
  arith, ◌==◌, update_where, Bool-cases, inl, inr, subst, ==→eq,
}
use zyranet_api.Payout.Rows.{
  Status, pending, processing, completed, failed, cancelled, Payout, PayDb,
}
use zyranet_api.Payout.States.{
  PayEnv, is_pending, is_processing, is_open, create_payout, cancel, fail_payout, truncate,
  transition, release_if,
}
use zyranet_api.Payout.Invariant.{IsSound, status_of}
use zyranet_api.Payout.Laws.{mark_paid-cases, release_if-cases, paid}
use zyranet_api.Payout.Claims.{create_payout-Created}
use zyranet_api.Payout.Runs.{
  Call, create, give_up, report_failure, confirm, perform, perform-IsSound, PayResult-cases,
  create_payout_rolls_back,
}
use zyranet_api.Payout.Settled.{status_of-append_old}
use zyranet_api.Payout.B2b.{SendResult}
use zyranet_api.Payout.B2b.Send.{Answer, Request, finish_b2b, sent_now}
use zyranet_api.Json.{FloatOps}
use zyranet_api.Payout.B2b.Sound.{
  Moves, Moves-IsSound, Moves-is_sent, is_sent, updated-is_sent, changes,
}
use zyranet_api.Payout.B2b.Steps.{
  is_refused, back_after, finish_b2b-Moves, handle_b2b_result-Moves, handle_b2b_timeout-Moves,
}
use zyranet_api.Payout.B2b.Starts.{StartCases, start_b2b-cases}
use zyranet_api.Payout.B2b.Once.{
  allowed_sends, Courier, SendCall, staff_call, start, finish, result, timeout, count_of, drop_one,
  after_start, after_answer, deliver, deliver_all, sends, IsOnce, count_of-drop_one_same,
  count_of-drop_one_other, same_requests-IsOnce, moved-IsOnce,
}

sent_status : (o : Option Status) → is_sent o ≡ true → (st : Status) × (o ≡ some st)
sent_status none h = absurd (ground arith)
sent_status (some st) h = (st, refl)

release_if-is_sent :
    (env : PayEnv) (i j : ℕ) (from : Status → Bool) (u : Payout → Payout) (db : PayDb)
    → ((p : Payout) → (u p).id ≡ p.id)
    → ((p : Payout) → is_pending (u p).status ≡ false)
    → is_sent (status_of j db.payouts) ≡ true
    → is_sent (status_of j (release_if env i (transition env i from u db) db).1.payouts) ≡ true
release_if-is_sent env i j from u db keep gone h = elim (release_if-cases env i from u db) [
  | inl same ↦ rw same h
  | inr changed ↦ rw changed (updated-is_sent i j from u db.payouts keep gone h)
]

-- No call of the staff makes a payout wait again.
perform-is_sent :
    (env : PayEnv) (c : Call) (db : PayDb) (j : ℕ)
    → is_sent (status_of j db.payouts) ≡ true
    → is_sent (status_of j (perform env c db).payouts) ≡ true
unfolding perform cancel fail_payout
perform-is_sent env (create org_id staff_id default min_amount) db j h =
    elim (PayResult-cases (create_payout env org_id staff_id default min_amount db)) [
      | inl (p, made) ↦
          let c = create_payout-Created env org_id staff_id default min_amount db _ p made in
          let (st, was) = sent_status (status_of j db.payouts) h in
          subst (λ d. is_sent (status_of j d.payouts) ≡ true) (sym c.after)
            (rw (status_of-append_old j db.payouts p st was) (subst (λ o. is_sent o ≡ true) was h))
      | inr (e, refused) ↦
          subst (λ d. is_sent (status_of j d.payouts) ≡ true)
            (sym (create_payout_rolls_back env org_id staff_id default min_amount db _ e refused)) h
    ]
perform-is_sent env (give_up id) db j h =
    release_if-is_sent env id j is_pending (λ p. record p { status = cancelled }) db (λ p. refl)
      (λ p. refl) h
perform-is_sent env (report_failure id reason) db j h =
    release_if-is_sent env id j is_processing
      (λ p. record p { status = failed; failure_reason = truncate reason 500 }) db (λ p. refl)
      (λ p. refl) h
perform-is_sent env (confirm id staff_id reference) db j h =
    elim (mark_paid-cases env id staff_id reference db) [
      | inl same ↦ rw same h
      | inr changed ↦ rw changed (
          updated-is_sent id j is_open (paid env staff_id reference) db.payouts (λ p. refl)
            (λ p. refl) h)
    ]

taken_out-is_sent :
    (id staff_id : ℕ) (xs : List Payout)
    → status_of id xs ≡ some pending
    → is_sent (
        status_of id (update_where (λ p. p.id == id && is_pending p.status) (sent_now staff_id) xs))
      ≡ true
taken_out-is_sent id staff_id [] h = absurd (ground arith)
taken_out-is_sent id staff_id (x ∷ xs) h = elim (Bool-cases (x.id == id)) [
  | inl hit ↦ ground arith
  | inr miss ↦ ground (arith, taken_out-is_sent id staff_id xs)
]

-- A payout that waits has no request that may have reached Safaricom.
waiting-sends :
    (st : Courier) (id : ℕ)
    → IsOnce st
    → status_of id st.db.payouts ≡ some pending
    → sends id st ≡ 0
waiting-sends st id v was = elim (Bool-cases (sends id st == 0)) [
  | inl zero ↦ ==→eq (sends id st) 0 zero
  | inr some_left ↦ absurd (ground (arith, v.gone id, was))
]

start-IsOnce :
    (id staff_id : ℕ) (r : SendResult Request × PayDb) (st : Courier)
    → StartCases id staff_id st.db r
    → IsOnce st
    → IsOnce (after_start r st)
start-IsOnce id staff_id r st (inl (e, refused)) v = rw refused v
start-IsOnce id staff_id r st (inr (q, left, s)) v =
    let none_yet = waiting-sends st id v s.was in
    let move : Moves none st.db r.1 = subst (Moves none st.db) (sym s.after) (
      changes id is_pending processing (sent_now staff_id) refl refl refl (λ p. refl)
        (λ p. refl)) in
    let sent : is_sent (status_of id r.1.payouts) ≡ true =
      subst (λ d. is_sent (status_of id d.payouts) ≡ true) (sym s.after)
        (taken_out-is_sent id staff_id st.db.payouts s.was) in
    rw left (record {
      sound = Moves-IsSound none st.db r.1 move v.sound;
      once = λ i. ground (arith, v.once i, s.this, none_yet);
      gone = λ i h. elim (Bool-cases (id == i)) [
        | inl same ↦ subst (λ k. is_sent (status_of k r.1.payouts) ≡ true) (==→eq id i same) sent
        | inr other ↦
            Moves-is_sent none st.db r.1 i move (λ e. ground arith)
              (v.gone i (ground (arith, s.this)))
      ];
    })

kept_sends :
    (i id : ℕ) (st : Courier)
    → (count_of id st.in_flight == 0) ≡ false
    → count_of i (drop_one id st.in_flight) + count_of i (id ∷ st.standing) ≡ sends i st
kept_sends i id st waiting = elim (Bool-cases (i == id)) [
  | inl same ↦ ground (arith, count_of-drop_one_same id st.in_flight)
  | inr other ↦ ground (arith, count_of-drop_one_other id i st.in_flight)
]

after_answer-IsOnce :
    (env : PayEnv) (id : ℕ) (answer : Answer) (st : Courier)
    → IsOnce st
    → IsOnce (after_answer env id answer st)
after_answer-IsOnce env id answer st v = elim (Bool-cases (count_of id st.in_flight == 0)) [
  | inl idle ↦ rw idle v
  | inr waiting ↦
      let move = finish_b2b-Moves env id answer st.db in
      let dropped = count_of-drop_one_same id st.in_flight waiting in
      let gone : (j : ℕ)
          → back_after id answer ≢ some j
          → 1 ≤ sends j st
          → is_sent (status_of j (finish_b2b env id answer st.db).1.payouts) ≡ true =
        λ j n h. Moves-is_sent _ st.db _ j move n (v.gone j h) in
      rw waiting (elim (Bool-cases (is_refused answer)) [
        | inl refused ↦ rw refused (record {
          sound = Moves-IsSound _ st.db _ move v.sound;
          once = λ i. elim (Bool-cases (i == id)) [
            | inl same ↦ ground (arith, v.once i, dropped)
            | inr other ↦ ground (arith, v.once i, count_of-drop_one_other id i st.in_flight)
          ];
          gone = λ i h. elim (Bool-cases (i == id)) [
            | inl same ↦ absurd (ground (arith, v.once i, dropped))
            | inr other ↦
                gone i (λ e. not_back i refused other e)
                  (ground (arith, count_of-drop_one_other id i st.in_flight))
          ];
        })
        | inr kept ↦ rw kept (record {
          sound = Moves-IsSound _ st.db _ move v.sound;
          once = λ i. subst (λ n. n ≤ 1) (sym (kept_sends i id st waiting)) (v.once i);
          gone = λ i h.
              gone i (λ e. none_back i kept e) (subst (λ n. 1 ≤ n) (kept_sends i id st waiting) h);
        })
      ])
]
  where
    not_back :
        (i : ℕ) → is_refused answer ≡ true → (i == id) ≡ false → back_after id answer ≢ some i
    not_back i refused other e = ground arith

    none_back : (i : ℕ) → is_refused answer ≡ false → back_after id answer ≢ some i
    none_back i kept e = ground arith

sends_allowed :
    (n : ℕ) (o : Option Status) → n ≤ 1 → (o ≡ some pending → n ≡ 0) → n ≤ allowed_sends o
sends_allowed n none most none_yet = most
sends_allowed n (some pending) most none_yet = omega (arith, none_yet refl)
sends_allowed n (some processing) most none_yet = most
sends_allowed n (some completed) most none_yet = most
sends_allowed n (some failed) most none_yet = most
sends_allowed n (some cancelled) most none_yet = most

-- Each call keeps the invariant, and so do all of them.
module _ {F : Type 0} (floats : FloatOps F) where
  pub deliver-IsOnce :
      (env : PayEnv) (c : SendCall F) (st : Courier) → IsOnce st → IsOnce (deliver floats env c st)
  unfolding deliver
  deliver-IsOnce env (staff_call c) st v =
      same_requests-IsOnce st (perform env c st.db) (perform-IsSound env c st.db v.sound)
        (λ j h. perform-is_sent env c st.db j h) v
  deliver-IsOnce env (start cfg out creds settings id staff_id) st v =
      start-IsOnce id staff_id _ st (start_b2b-cases env cfg out creds settings id staff_id st.db) v
  deliver-IsOnce env (finish id answer) st v = after_answer-IsOnce env id answer st v
  deliver-IsOnce env (result payload) st v =
      moved-IsOnce st _ (handle_b2b_result-Moves floats env payload st.db v.sound) v
  deliver-IsOnce env (timeout payload) st v =
      moved-IsOnce st _ (handle_b2b_timeout-Moves floats env payload st.db) v

  pub deliver_all-IsOnce :
      (calls : List (PayEnv × SendCall F)) (st : Courier)
      → IsOnce st
      → IsOnce (deliver_all floats calls st)
  unfolding deliver_all
  deliver_all-IsOnce [] st v = v
  deliver_all-IsOnce ((env, c) ∷ cs) st v =
      deliver_all-IsOnce cs (deliver floats env c st) (deliver-IsOnce env c st v)

  -- From sound tables with no request out, through any calls in any order (staff calls, requests and
  -- their answers, results and timeouts, whatever statements fail): the tables stay sound, and no payout
  -- has more requests that may have reached Safaricom than it is allowed: one, and none while it is
  -- pending.
  pub sent_once :
      (calls : List (PayEnv × SendCall F)) (db : PayDb) (i : ℕ)
      → IsSound db
      → let st = deliver_all floats calls (record { db = db; in_flight = []; standing = [] }) in
        IsSound st.db × (sends i st ≤ allowed_sends (status_of i st.db.payouts))
  sent_once calls db i v =
      let st0 : Courier = record { db = db; in_flight = []; standing = [] } in
      let st = deliver_all floats calls st0 in
      let all =
        deliver_all-IsOnce calls st0 (record {
          sound = v;
          once = λ i. omega arith;
          gone = λ i h. absurd (omega (arith, h));
        }) in
      (
        all.sound,
        sends_allowed (sends i st) (status_of i st.db.payouts) (all.once i)
            (waiting-sends st i all),
      )
