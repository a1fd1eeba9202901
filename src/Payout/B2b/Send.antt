-- ===== src/Payout/B2b/Send.antt =====
-- Sending a payout (services/payout.go: `SendB2B`, `revertToPending`, `noteUnknown`), in the two
-- parts that other calls can come between: up to the request, and from its answer on.
use zyranet_api.Base.{
  ℕ, Bool, true, false, not, ◌&&◌, Option, none, some, List, [], ◌∷◌, ◌++◌, ◌==◌, if◌then◌else◌,
  find_first, update_where,
}
use zyranet_api.Text.{Text, bytes, decimal}
use zyranet_api.Mpesa.Creds.{Creds, MpesaConfig, Setting}
use zyranet_api.Payout.Rows.{
  Payout, PayDb, PayResult, ok, err, pending, processing, b2b, unset, find_payout, find_setting,
  update_row,
}
use zyranet_api.Payout.States.{PayEnv, transition, truncate, is_pending, is_processing}
use zyranet_api.Payout.B2b.{
  SendError, payout_gone, not_pending, database_failed, request_not_built, rejected,
  outcome_unknown, SendResult, ready, stopped, Outside, Ready, prepare, Payload, b2b_payload, Reply,
  Verdict, classify_b2b_response, accepted, turned_down, unknown,
}

-- A request that is about to leave.
pub record Request : Type 0 where
  pub payout_id : ℕ
  pub payload : Payload

abbrev pub sent_now : ℕ → Payout → Payout
sent_now staff_id p = record p {
  status = processing;
  method = b2b;
  sent_by = some staff_id;
  failure_reason = [];
}

abbrev pub put_back : Text → Payout → Payout
put_back reason p = record p {
  status = pending;
  method = unset;
  sent_by = none;
  failure_reason = truncate reason 500;
}

abbrev pub with_reason : Text → Payout → Payout
with_reason reason p = record p { failure_reason = truncate reason 500 }

abbrev pub with_conversation : Verdict → Payout → Payout
with_conversation v p = record p {
  originator_conversation_id = v.originator_id;
  conversation_id = v.conversation_id;
  result_desc = truncate v.msg 255;
}

-- The text of a `—` in the messages.
abbrev pub dash : Text
dash = 226 ∷ 128 ∷ 148 ∷ []

abbrev pub check_statement : Text
check_statement = dash ++ bytes " check the M-Pesa statement, then mark it paid or failed"

-- What came back: the request could not be built, no answer, or an answer.
pub data Answer : Type 0 where
  not_built : (why : Text) → Answer
  no_answer : (why : Text) → Answer
  answered : (status : ℕ) (reply : Reply) → Answer

abbrev pub payload_of : Ready → Payout → Payload
payload_of r p =
    b2b_payload p r.config.initiator r.credential r.creds.shortcode r.result_url r.timeout_url

-- A write whose error the code does not look at.
abbrev pub update_rows : PayEnv → (Payout → Bool) → (Payout → Payout) → PayDb → PayDb
update_rows env test u db =
    if env.fails update_row then db else record db { payouts = update_where test u db.payouts }

module _ (env : PayEnv) where
  abbrev pub take_out :
      Ready → ℕ → Payout → PayResult Bool × PayDb → PayDb → SendResult Request × PayDb
  take_out r id p (err e, db') db = (stopped database_failed, db)
  take_out r id p (ok false, db') db = (stopped not_pending, db)
  take_out r id p (ok true, db') db =
      (ready (record { payout_id = id; payload = payload_of r p }), db')

  abbrev pub start_row :
      SendResult Ready → ℕ → ℕ → Option Payout → PayDb → SendResult Request × PayDb
  start_row prepared id staff_id none db = (stopped payout_gone, db)
  start_row prepared id staff_id (some p) db =
      if not (is_pending p.status) then (stopped not_pending, db) else elim prepared [
        | stopped e ↦ (stopped e, db)
        | ready r ↦ take_out r id p (transition env id is_pending (sent_now staff_id) db) db
      ]

  -- Up to the request: the checks, and the payout taken out of `pending`.
  unfoldable pub start_b2b :
      MpesaConfig → Outside → Creds → List Setting → ℕ → ℕ → PayDb → SendResult Request × PayDb
  start_b2b cfg out creds settings id staff_id db =
      if env.fails find_payout
      then (stopped database_failed, db)
      else start_row (prepare cfg out creds (env.fails find_setting) settings) id staff_id
          (find_first (λ p. p.id == id) db.payouts) db

  unfoldable pub revert_to_pending : ℕ → Text → PayDb → PayDb
  revert_to_pending id reason db = (transition env id is_processing (put_back reason) db).1

  unfoldable pub note_unknown : ℕ → Text → PayDb → PayDb
  note_unknown id reason db =
      update_rows env (λ p. p.id == id && is_processing p.status) (with_reason reason) db

  abbrev pub apply_verdict : ℕ → ℕ → Verdict → PayDb → Option SendError × PayDb
  apply_verdict id status v db = elim v.outcome [
    | accepted ↦ (none, update_rows env (λ p. p.id == id) (with_conversation v) db)
    | turned_down ↦ (
      some (rejected v.msg),
      revert_to_pending id (bytes "Safaricom rejected the request: " ++ v.msg) db,
    )
    | unknown ↦ (
      some outcome_unknown,
      note_unknown id
          (bytes "Safaricom replied HTTP "
            ++ decimal status
            ++ bytes " with an unclear result ("
            ++ v.msg
            ++ bytes ") "
            ++ check_statement)
          db,
    )
  ]

  -- From the answer on.
  unfoldable pub finish_b2b : ℕ → Answer → PayDb → Option SendError × PayDb
  finish_b2b id (not_built why) db = (
    some (request_not_built why),
    revert_to_pending id (bytes "could not build the request: " ++ why) db,
  )
  finish_b2b id (no_answer why) db = (
    some outcome_unknown,
    note_unknown id
        (bytes "the request outcome is unknown (" ++ why ++ bytes ") " ++ check_statement) db,
  )
  finish_b2b id (answered status reply) db =
      apply_verdict id status (classify_b2b_response status reply) db

  abbrev pub finish_started :
      SendResult Request × PayDb → (Request → Answer) → Option SendError × PayDb
  finish_started (stopped e, db) answer = (some e, db)
  finish_started (ready r, db) answer = finish_b2b r.payout_id (answer r) db

  -- The whole call, when no other one comes between; `answer` is what the request meets.
  unfoldable pub send_b2b :
      MpesaConfig
      → Outside
      → Creds
      → List Setting
      → (Request → Answer)
      → ℕ
      → ℕ
      → PayDb
      → Option SendError × PayDb
  send_b2b cfg out creds settings answer id staff_id db =
      finish_started (start_b2b cfg out creds settings id staff_id db) answer
