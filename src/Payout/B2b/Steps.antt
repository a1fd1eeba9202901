-- ===== src/Payout/B2b/Steps.antt =====
-- Which step each call about a B2B payout is (services/payout.go: `SendB2B`, `HandleB2BResult`,
-- `HandleB2BTimeout`).
use zyranet_api.Base.{
  [], update_where_none, ℕ, leb, not, ◌||◌, ◌≡◌, ◌≢◌, refl, Bool, true, false, ◌&&◌, Option, none,
  some, arith, ◌==◌, if◌then◌else◌, Bool-cases, Option-cases, inl, inr, ◌⊎◌, count_where,
}
use zyranet_api.Text.{Text, bytes, text_eq}
use zyranet_api.Mpesa.Creds.{is_empty}
use zyranet_api.Payout.Rows.{
  completed, failed, Payout, PayDb, PayResult, ok, err, transition_row, find_payout, release,
}
use zyranet_api.Payout.States.{PayEnv, transition, is_processing}
use zyranet_api.Payout.Invariant.{IsSound, status_of, count-missed, count_unique}
use zyranet_api.Payout.B2b.{
  Reply, Verdict, classify_b2b_response, accepted, turned_down, unknown, Outcome,
}
use zyranet_api.Payout.B2b.Send.{
  Answer, not_built, no_answer, answered, apply_verdict, finish_b2b, revert_to_pending,
  note_unknown, put_back, with_reason, with_conversation,
}
use zyranet_api.Json.{Fields, FloatOps}
use zyranet_api.Payout.B2b.Result.{
  handle_b2b_result, handle_b2b_timeout, settle_result, completed_now, failed_now, release_failed,
  result_of, value_at, fields_or_none, code_of, no_matter, timed_out,
}
use zyranet_api.Payout.B2b.Sound.{
  Moves, relabels, changes, stays, gives_up, goes_back, update_rows-Moves, transition-Moves,
}

revert_to_pending-Moves :
    (env : PayEnv) (id : ℕ) (reason : Text) (db : PayDb)
    → Moves (some id) db (revert_to_pending env id reason db)
unfolding revert_to_pending
revert_to_pending-Moves env id reason db = elim (Bool-cases (env.fails transition_row)) [
  | inl failing ↦ rw (revert_to_pending, failing) stays
  | inr works ↦
      rw (revert_to_pending, works) (goes_back id (put_back reason) refl (λ p. refl) (λ p. refl))
]

note_unknown-Moves :
    (env : PayEnv) (back : Option ℕ) (id : ℕ) (reason : Text) (db : PayDb)
    → Moves back db (note_unknown env id reason db)
unfolding note_unknown
note_unknown-Moves env back id reason db =
    update_rows-Moves env back (λ p. p.id == id && is_processing p.status) (with_reason reason) db
      (λ p. refl) (λ p. refl)

abbrev turned_away : Outcome → Bool
turned_away accepted = false
turned_away turned_down = true
turned_away unknown = false

-- The replies that leave no doubt that nothing was sent: a client error, or an answer of the API itself
-- that names a code other than 0.
abbrev pub is_clear_refusal : ℕ → Reply → Bool
is_clear_refusal status reply =
    (leb 400 status && leb status 499)
    || (leb 200 status
        && leb status 299
        && reply.parsed
        && not (text_eq reply.response_code [])
        && not (text_eq reply.response_code (bytes "0")))

-- Whether nothing was sent: the request was never built, or the reply says so. Without a reply it may
-- have arrived.
abbrev pub is_refused : Answer → Bool
is_refused (not_built why) = true
is_refused (no_answer why) = false
is_refused (answered status reply) = is_clear_refusal status reply

-- Only a clear refusal puts the payout back.
abbrev pub back_after : ℕ → Answer → Option ℕ
back_after id answer = if is_refused answer then some id else none

pub Outcome-cases : (o : Outcome) → (o ≡ turned_down) ⊎ ((o ≡ accepted) ⊎ (o ≡ unknown))
Outcome-cases accepted = inr (inl refl)
Outcome-cases turned_down = inl refl
Outcome-cases unknown = inr (inr refl)

apply_verdict-Moves :
    (env : PayEnv) (id status : ℕ) (v : Verdict) (db : PayDb)
    → Moves
        (if turned_away v.outcome then some id else none)
        db
        (apply_verdict env id status v db).1
apply_verdict-Moves env id status v db = elim (Outcome-cases v.outcome) [
  | inl turned ↦ rw turned (revert_to_pending-Moves env id _ db)
  | inr (inl taken) ↦ rw taken (
      update_rows-Moves env none (λ p. p.id == id) (with_conversation v) db (λ p. refl) (λ p. refl))
  | inr (inr unclear) ↦ rw unclear (note_unknown-Moves env none id _ db)
]

-- The code puts back only what such a reply refused.
turned_away_clearly :
    (status : ℕ) (reply : Reply)
    → turned_away (classify_b2b_response status reply).outcome ≡ true
    → is_clear_refusal status reply ≡ true
unfolding classify_b2b_response
turned_away_clearly status reply h = ground arith

nothing_back : (id : ℕ) (db db' : PayDb) → Moves none db db' → Moves (some id) db db'
nothing_back id db _ stays = stays
nothing_back id db _ (relabels test u same_id same_status) = relabels test u same_id same_status
nothing_back id db _ (changes i from to u skip live gone keep target) =
    changes i from to u skip live gone keep target
nothing_back id db _ (gives_up i from u skip unpaid keep target) =
    gives_up i from u skip unpaid keep target
nothing_back id db _ (goes_back i u this keep target) = absurd (ground arith)

more_back :
    (id : ℕ) (may shall : Bool) (db db' : PayDb)
    → (may ≡ true → shall ≡ true)
    → Moves (if may then some id else none) db db'
    → Moves (if shall then some id else none) db db'
more_back id true shall db db' h m = rw (h refl) m
more_back id false true db db' h m = nothing_back id db db' m
more_back id false false db db' h m = m

pub finish_b2b-Moves :
    (env : PayEnv) (id : ℕ) (answer : Answer) (db : PayDb)
    → Moves (back_after id answer) db (finish_b2b env id answer db).1
unfolding finish_b2b
finish_b2b-Moves env id (not_built why) db = revert_to_pending-Moves env id _ db
finish_b2b-Moves env id (no_answer why) db = note_unknown-Moves env none id _ db
finish_b2b-Moves env id (answered status reply) db =
    let verdict = classify_b2b_response status reply in
    more_back id (turned_away verdict.outcome) (is_clear_refusal status reply) db
      (apply_verdict env id status verdict db).1 (turned_away_clearly status reply)
      (apply_verdict-Moves env id status verdict db)

module _ {F : Type 0} (floats : FloatOps F) (env : PayEnv) where
  no_matter-Moves :
      (r : PayResult Bool × PayDb) (db : PayDb)
      → Moves none db r.1
      → Moves none db (no_matter floats env r).1
  no_matter-Moves (ok changed, db') db m = m
  no_matter-Moves (err e, db') db m = m

  -- One row was found, so the payout was processing.
  found-unpaid :
      (i : ℕ) (u : Payout → Payout) (db : PayDb)
      → IsSound db
      → ((p : Payout) → (u p).id ≡ p.id)
      → (count_where (λ p. p.id == i && is_processing p.status) db.payouts == 1) ≡ true
      → status_of i db.payouts ≢ some completed
  found-unpaid i u db v keep one paid =
      let missed = count-missed i is_processing u keep db.payouts completed v.unique paid refl in
      absurd (ground arith)

  release_failed-Moves :
      (i : ℕ) (u : Payout → Payout) (db : PayDb)
      → IsSound db
      → ((p : Payout) → (u p).id ≡ p.id)
      → ((p : Payout) → (u p).status ≡ failed)
      → Moves none db (release_failed floats env i (transition env i is_processing u db) db).1
  release_failed-Moves i u db v keep target = elim (Bool-cases (env.fails transition_row)) [
    | inl failing ↦ rw failing stays
    | inr works ↦
        elim (Bool-cases (count_where (λ p. p.id == i && is_processing p.status) db.payouts == 1)) [
          | inr missed ↦
              let most = count_unique i is_processing db.payouts v.unique in
              let zero : count_where (λ p. p.id == i && is_processing p.status) db.payouts ≡ 0 =
                ground arith in
              let same =
                update_where_none (λ p. p.id == i && is_processing p.status) u db.payouts zero in
              rw works (rw missed (rw same stays))
          | inl one ↦ elim (Bool-cases (env.fails release)) [
            | inl broken ↦ rw works (rw one (rw broken stays))
            | inr frees ↦ rw works (
                rw one (
                  rw frees (
                    gives_up i is_processing u refl (found-unpaid i u db v keep one) keep
                      (λ p. rw (target p) refl))))
          ]
        ]
  ]

  settle_result-Moves :
      (result : Fields F) (o : Option Payout) (db : PayDb)
      → IsSound db
      → Moves none db (settle_result floats env result o db).1
  settle_result-Moves result none db v = stays
  settle_result-Moves result (some p) db v =
      elim (Bool-cases (floats.is_zero (code_of floats result))) [
        | inl zero ↦ rw zero (
            no_matter-Moves (transition env p.id is_processing (completed_now floats env result) db)
              db
              (transition-Moves env none p.id is_processing completed
                (completed_now floats env result) db refl refl refl (λ p. refl) (λ p. refl)))
        | inr other ↦
            rw other (
              release_failed-Moves p.id (failed_now floats env result) db v (λ p. refl) (λ p. refl))
      ]

  pub handle_b2b_result-Moves :
      (payload : Fields F) (db : PayDb)
      → IsSound db
      → Moves none db (handle_b2b_result floats env payload db).1
  unfolding handle_b2b_result
  handle_b2b_result-Moves payload db v = elim (Option-cases (result_of floats payload)) [
    | inl bad ↦ rw (handle_b2b_result, bad) stays
    | inr (result, good) ↦
        rw (handle_b2b_result, good)
          (elim (Bool-cases (env.fails find_payout)) [
            | inl failing ↦ rw failing stays
            | inr works ↦ rw works (settle_result-Moves result _ db v)
          ])
  ]

  pub handle_b2b_timeout-Moves :
      (payload : Fields F) (db : PayDb) → Moves none db (handle_b2b_timeout floats env payload db)
  unfolding handle_b2b_timeout
  handle_b2b_timeout-Moves payload db =
      let orig =
        value_at floats (bytes "OriginatorConversationID")
          (fields_or_none floats env (result_of floats payload)) in
      elim (Bool-cases (is_empty orig)) [
        | inl blank ↦ rw blank stays
        | inr given ↦ rw given (
            update_rows-Moves env none
              (λ p. text_eq p.originator_conversation_id orig && is_processing p.status)
              (λ p. record p { failure_reason = timed_out floats env }) db (λ p. refl) (λ p. refl))
      ]
