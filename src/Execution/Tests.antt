-- ===== src/Execution/Tests.antt =====
-- Runs of src/execution_polymarket.py on concrete orders, with prices and sizes in hundredths, and
-- the theorems at these runs.
use lol_predictor.Prelude.{
  ℕ, String, ◌≡◌, refl, Bool, true, none, some, cents, text_eq, ap, strip, List, ◌≤◌, ◌≢◌, arith,
  false, ◌∷◌, [],
}
use lol_predictor.Approval.{
  ApprovalRecord, reads, aware, BetPayload, bet_fingerprint, require_manual_approval, Grant,
  granted,
}
use lol_predictor.Betting.{go, absent}
use lol_predictor.Execution.Outcome.{returned, Error, raised, assertion}
use lol_predictor.Execution.Orders.{
  existing_order_for_bet, View, accepted, order_created, created, order_submitted, submitted,
  order_result,
}
use lol_predictor.Execution.Answers.{Response, dict, missing}
use lol_predictor.Execution.Layers.{
  Order, Bet, Digests, Surroundings, authorise, confirms, order_fingerprint,
}
use lol_predictor.Execution.Calls.{
  Desk, Draw, Reply, answers, submit_under, submit_locked, cancel_order, fails, submit_order,
  reconcile_order,
}
use lol_predictor.Execution.Interleave.{start}
use lol_predictor.Execution.Once.{transmissions, at_most_once}
use lol_predictor.Execution.Ledger.{uses_id, announcements}
use lol_predictor.Execution.Serial.{
  Served, nothing, submits, Served-Reached, Served-at_most_once, Served-frozen,
}
use lol_predictor.Execution.Safety.{Cleared, submit_under-Cleared, submit_order-blocked}
use lol_predictor.Execution.Machine.{Served-IsLawful}
use lol_predictor.Execution.Lawful.{IsLawful}
use lol_predictor.Execution.Frozen.{assertions_hold}
use lol_predictor.Execution.Defects.{Resumed, after_failure, resume_keeps_old_terms}
use lol_predictor.Approval.Bound.{Meets, require_manual_approval-Meets, Meets-granted}

abbrev digests : Digests ℕ
digests = record { of_bet = λ p. p.selection; of_order = λ o. o.token_id }

abbrev payload : BetPayload ℕ
payload = record {
  market = "moneyline";
  selection = "T1";
  prob_model = 60;
  decimal_odds = 200;
  bankroll = 100000;
}

abbrev bet : Bet ℕ
bet = record { id = "b1"; real = true; approval_id = some "a1"; payload = payload }

abbrev order : Order ℕ
order = record { token_id = "tok"; side = "BUY"; price = 45; size = 1000 }

abbrev other_order : Order ℕ
other_order = record { token_id = "tok"; side = "BUY"; price = 45; size = 9000 }

abbrev approval : ApprovalRecord
approval = record {
  schema_version = some 1;
  status = some "APPROVED";
  approval_id = some "a1";
  approved_by = some "ana";
  fingerprint = some "T1";
  order_fingerprint = some "tok";
  approved_at = some (aware 10);
  expires_at = some (aware 20);
}

abbrev surroundings : Surroundings
surroundings = record {
  approval = reads approval;
  approval_again = reads approval;
  now = 15;
  confirmation = " True ";
}

abbrev live : Response ℕ
live = dict (record {
  order_id_camel = some "x9";
  order_id_snake = none;
  success = some true;
  status = "LIVE";
  size_matched = missing;
})

abbrev draw : String → Bool → Reply ℕ → Draw ℕ
draw id client reply = record {
  new_id = id;
  opened_at = "t0";
  submitted_at = "t1";
  resulted_at = "t2";
  client = client;
  reply = reply;
}

abbrev sent_once : Desk ℕ
sent_once =
    (submit_under (returned go) digests surroundings bet order (draw "o1" true (answers live))
      start.desk).1

sent_once-sent : transmissions "b1" sent_once.sent ≡ 1
unfolding submit_under authorise existing_order_for_bet require_manual_approval bet_fingerprint
    confirms text_eq transmissions order_fingerprint
sent_once-sent = refl

session : Served sent_once
unfolding uses_id
session =
    submits (returned go) digests surroundings bet order (draw "o1" true (answers live))
      (nothing refl) refl

abbrev path_views : List (View ℕ)
path_views = (Served-Reached session).0

at_most_once_example :
    (transmissions "b1" sent_once.sent ≤ announcements "b1" sent_once.orders)
    × (announcements "b1" sent_once.orders ≤ 1)
at_most_once_example = at_most_once (Served-Reached session).1 "b1"

Served-at_most_once_example : transmissions "b1" sent_once.sent ≤ 1
Served-at_most_once_example = Served-at_most_once session "b1"

Served-frozen_example :
    (v : View ℕ) × (existing_order_for_bet "b1" sent_once.orders ≡ some v)
    × (submit_locked bet other_order (draw "o2" true fails) sent_once ≡ (returned v, sent_once))
Served-frozen_example =
    Served-frozen session bet other_order (draw "o2" true fails) (omega (arith, sent_once-sent))

Served-IsLawful_example : IsLawful sent_once.orders
Served-IsLawful_example = Served-IsLawful session

sent_once-changes : sent_once ≢ start.desk
unfolding transmissions
sent_once-changes e =
    omega (arith, sent_once-sent, ap (λ (d : Desk ℕ). transmissions "b1" d.sent) e)

submit_under-Cleared_example : Cleared digests surroundings (returned go) bet order
submit_under-Cleared_example =
    submit_under-Cleared (returned go) digests surroundings bet order
      (draw "o1" true (answers live)) start.desk sent_once-changes

submit_order-blocked_example :
    (x : Error) × (submit_order absent digests surroundings bet order
        (draw "o1" true (answers live))
        sent_once
      ≡ (raised x, sent_once))
submit_order-blocked_example =
    submit_order-blocked absent digests surroundings bet order (draw "o1" true (answers live))
      sent_once

assertions_hold_example :
    ((submit_locked bet order (draw "o1" true (answers live)) start.desk).0 ≢ raised assertion)
    × ((reconcile_order "o1" "t3" true (answers live) start.desk).0 ≢ raised assertion)
    × ((cancel_order "o1" "t3" true (answers live) start.desk).0 ≢ raised assertion)
assertions_hold_example =
    assertions_hold bet order (draw "o1" true (answers live)) "o1" "t3" true (answers live)
      start.desk

resume_keeps_old_terms_example :
    Resumed "o1" order other_order
      (submit_locked bet other_order
        (draw "o2" true (answers live))
        (after_failure bet order (draw "o1" false fails))).1
resume_keeps_old_terms_example =
    resume_keeps_old_terms bet order other_order (draw "o1" false fails)
      (draw "o2" true (answers live)) live refl refl refl

abbrev live_view : View ℕ
live_view = record {
  local_order_id = "o1";
  bet_id = "b1";
  token_id = some "tok";
  side = some "BUY";
  price = some 45;
  size = some 1000;
  state = accepted;
  exchange_order_id = some "x9";
  size_matched = some 0;
  events =
      record { event = order_created; state = created; created_at = "t0" }
      ∷ record { event = order_submitted; state = submitted; created_at = "t1" }
      ∷ record { event = order_result; state = accepted; created_at = "t2" }
      ∷ [];
}

abbrev grant : Grant
grant = record { approval_id = "a1"; approved_by = "ana"; approved_at = 10; expires_at = 20 }

grant_given : require_manual_approval (reads approval) "T1" 15 ≡ granted grant
unfolding require_manual_approval strip
grant_given = refl

require_manual_approval-Meets_example :
    (a : ApprovalRecord) × (reads approval ≡ reads a) × Meets a "T1" 15 grant
require_manual_approval-Meets_example =
    require_manual_approval-Meets (reads approval) "T1" 15 grant grant_given

grant-Meets : Meets approval "T1" 15 grant
unfolding strip
grant-Meets = record {
  version = refl;
  approved = refl;
  bound = refl;
  id = refl;
  by = refl;
  from = refl;
  to = refl;
  named = refl;
  started = omega arith;
  unexpired = omega arith;
}

Meets-granted_example : require_manual_approval (reads approval) "T1" 15 ≡ granted grant
Meets-granted_example = Meets-granted approval "T1" 15 grant grant-Meets
