-- ===== src/Tests/Processor.antt =====
-- The mock processor on concrete data.
use dodo_payment_gateway.Base.{
  String, if◌then◌else◌, ◌==◌, ℕ, ◌≤◌, ◌≡◌, refl, some, [], find, update, count, arith,
}
use dodo_payment_gateway.Base.Int.{pos}
use dodo_payment_gateway.Errors.{ok}
use dodo_payment_gateway.Store.{Db, World, ChargeRequest}
use dodo_payment_gateway.Payment.PspWebhook.{process_psp_webhook}
use dodo_payment_gateway.Payment.Settled.{Waiting}
use dodo_payment_gateway.Payment.Settled.Received.{Applied}
use dodo_payment_gateway.MockPsp.{
  MockPsp, Charge, Progress, Arrival, initial, handle_charge, accept_charge, get_or_start, start,
  lookup, complete_charge, complete_found, completion, settle, has_id, answer_waiting,
  answer_running, cached_answer, succeeded,
}
use dodo_payment_gateway.MockPsp.Steps.{starts, arrives, completes}
use dodo_payment_gateway.MockPsp.Once.{is_success_for}
use dodo_payment_gateway.MockPsp.Replay.{replay}
use dodo_payment_gateway.MockPsp.Notify.{notify_webhook, notification, payload, event_id}
use dodo_payment_gateway.MockPsp.Notify.Attempts.{Sent, notify_webhook-Sent}
use dodo_payment_gateway.MockPsp.Notify.Received.{notification-Applied}
use dodo_payment_gateway.Tests.{env, before, under_way, business, open_invoice, attempt}

abbrev request : ChargeRequest
request = record {
  amount = pos 100;
  currency = "USD";
  card_token = "tok_success";
  idempotency_key = "a";
}

abbrev other_request : ChargeRequest
other_request = record request { card_token = "tok_card_declined" }

abbrev charged : MockPsp
charged = complete_charge 0 "psp-1" (handle_charge "POST" (some request) initial).1

abbrev repeated : MockPsp
repeated = (handle_charge "POST" (some other_request) charged).1

abbrev charge : Charge
charge = record { id = 0; request = request; progress = Progress.finished 200 (succeeded "psp-1") }

replay_example :
    (handle_charge "POST" (some other_request) repeated ≡ (Arrival.waits 0, repeated))
    × (find (has_id 0) repeated.charges ≡ some charge)
    × (answer_waiting charge.progress ≡ some (cached_answer 200 (succeeded "psp-1")))
    × (answer_running charge.progress ≡ some (cached_answer 200 (succeeded "psp-1")))
    × (count (is_success_for "a") repeated.charges ≤ 1)
unfolding find update handle_charge accept_charge get_or_start start lookup complete_charge
    complete_found completion settle
replay_example =
    replay (completes (arrives (starts initial) "POST" (some request)) 0 "psp-1")
      (arrives (starts charged) "POST" (some other_request)) 0 200 (succeeded "psp-1") charge
      other_request refl refl refl refl refl

notify_webhook-Sent_example :
    Sent before.env "http://gateway/webhooks/psp" "whsec"
      (payload (event_id "a") "charge.succeeded" request (succeeded "psp-1"))
      3
      1
      []
      (notify_webhook "http://gateway/webhooks/psp" "whsec" "charge.succeeded" request
        (succeeded "psp-1")
        before).1.deliveries
notify_webhook-Sent_example =
    notify_webhook-Sent "http://gateway/webhooks/psp" "whsec" "charge.succeeded" request
      (succeeded "psp-1") before

abbrev receiver : World
receiver = record under_way {
  env = record env {
    decode_webhook =
        λ text. some (payload (event_id "u") "charge.succeeded" request (succeeded "psp-1"));
  };
}

receiver-Waiting : Waiting attempt receiver
unfolding find
receiver-Waiting = record {
  works = λ n. refl;
  fresh = λ n. refl;
  business = business;
  owner = refl;
  invoice = open_invoice;
  bill = refl;
  row = refl;
  waits = refl;
}

-- PSP_WEBHOOK_SECRET is set for both processes.
abbrev getenv : String → String
getenv name = if name == "PSP_WEBHOOK_SECRET" then "whsec" else ""

notification-Applied_example :
    let body = payload (event_id "u") "charge.succeeded" request (succeeded "psp-1") in
    let d = notification receiver.env "http://localhost:8080/webhooks/psp" "whsec" body 0 in
    (n : ℕ) × (d' : Db) × (process_psp_webhook "whsec" d.body d.id d.timestamp d.signature receiver
      ≡ (ok tt, record receiver { db = d'; tick = n }))
    × Applied body attempt d'
unfolding find
notification-Applied_example =
    notification-Applied getenv getenv "u" request (succeeded "psp-1") 0 receiver attempt
      receiver-Waiting refl refl refl (omega arith) (omega arith) (omega arith) (omega arith) refl
      refl refl
