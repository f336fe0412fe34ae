-- ===== src/MockPsp.antt =====
-- cmd/mock-psp/main.go: the card processor that the gateway is run against.
--
-- A charge in progress is a handler that is inside completeCharge; with an idempotency key it owns the
-- cache entry that it has made, which stands for it here: `ready` is closed once the charge has
-- `finished`, whose status and answer are then the entry's httpCode and resp, or `failed`, whose entry
-- has left the cache and has the zero answer. What a mutex or a channel makes one step is one function.
pub mod Steps
pub mod Cache
pub mod Release
pub mod Once
pub mod Kept
pub mod Replay
pub mod Notify
use dodo_payment_gateway.Base.{
  ℕ, suc, String, Bool, true, false, Option, none, some, List, [], ◌∷◌, ◌==◌, ◌&&◌, not, nat_eq,
  leb, if◌then◌else◌, find, update, insert,
}
use dodo_payment_gateway.Store.{ChargeRequest, ChargeResponse}

-- `dropped` is between the unlock and the close of failUncached.
pub data Progress : Type 0 where
  running : Progress
  dropped failed : ℕ → Progress
  finished : ℕ → ChargeResponse → Progress

pub record Charge : Type 0 where
  pub id : ℕ
  pub request : ChargeRequest
  pub progress : Progress

-- The map from keys to the charges that own the entries, and the charges so far.
pub record MockPsp : Type 0 where
  pub next_id : ℕ
  pub cache : List (String × ℕ)
  pub charges : List Charge

abbrev pub initial : MockPsp
initial = record { next_id = 0; cache = []; charges = [] }

-- The body of an answer is JSON or a text.
pub data PspAnswer : Type 0 where
  json : ℕ → ChargeResponse → PspAnswer
  text : ℕ → String → PspAnswer

-- What handleCharge does with a request before it waits: it is answered at once, it waits for the charge
-- with this id, or it runs the charge with this id.
pub data Arrival : Type 0 where
  refused : PspAnswer → Arrival
  waits runs : ℕ → Arrival

unfoldable pub lookup : String → List (String × ℕ) → Option ℕ
lookup key [] = none
lookup key ((k, id) ∷ cache) = if k == key then some id else lookup key cache

unfoldable pub delete : String → List (String × ℕ) → List (String × ℕ)
delete key [] = []
delete key ((k, id) ∷ cache) =
    let rest = delete key cache in if k == key then rest else (k, id) ∷ rest

abbrev pub has_id : ℕ → Charge → Bool
has_id id c = nat_eq c.id id

abbrev pub is_running : Progress → Bool
is_running Progress.running = true
is_running _ = false

abbrev pub new_charge : ℕ → ChargeRequest → Charge
new_charge id request = record { id = id; request = request; progress = Progress.running }

unfoldable pub start : ChargeRequest → List (String × ℕ) → MockPsp → Arrival × MockPsp
start request cache p = (
  Arrival.runs p.next_id,
  record {
    next_id = suc p.next_id;
    cache = cache;
    charges = insert (new_charge p.next_id request) p.charges;
  },
)

unfoldable pub get_or_start : ChargeRequest → MockPsp → Option ℕ → Arrival × MockPsp
unfolding start
get_or_start request p (some id) = (Arrival.waits id, p)
get_or_start request p none = start request ((request.idempotency_key, p.next_id) ∷ p.cache) p

unfoldable pub accept_charge : ChargeRequest → MockPsp → Arrival × MockPsp
unfolding get_or_start start lookup
accept_charge request p =
    if request.card_token == ""
    then (Arrival.refused (PspAnswer.text 400 "card_token is required"), p)
    else if request.idempotency_key == ""
    then start request p.cache p
    else get_or_start request p (lookup request.idempotency_key p.cache)

-- Of the method and the body, if it decodes.
unfoldable pub handle_charge : String → Option ChargeRequest → MockPsp → Arrival × MockPsp
unfolding accept_charge
handle_charge method none p = (
  Arrival.refused (
      if method == "POST"
      then PspAnswer.text 400 "invalid request body"
      else PspAnswer.text 405 "method not allowed"),
  p,
)
handle_charge method (some request) p =
    if method == "POST"
    then accept_charge request p
    else (Arrival.refused (PspAnswer.text 405 "method not allowed"), p)

abbrev pub succeeded : String → ChargeResponse
succeeded psp_ref = record { status = "succeeded"; psp_ref = psp_ref; code = "" }

abbrev pub declined : String → ChargeResponse
declined code = record { status = "failed"; psp_ref = ""; code = code }

-- The switch of completeCharge, for the uuid that it draws.
unfoldable pub completion : String → String → Progress
completion card_token uuid =
    if card_token == "tok_success"
    then Progress.finished 200 (succeeded uuid)
    else if card_token == "tok_insufficient_funds"
    then Progress.finished 200 (declined "insufficient_funds")
    else if card_token == "tok_card_declined"
    then Progress.finished 200 (declined "card_declined")
    else if card_token == "tok_timeout"
    then Progress.finished 200 (succeeded uuid)
    else if card_token == "tok_network_error"
    then Progress.dropped 500
    else Progress.dropped 400

abbrev pub set_progress : ℕ → Progress → List Charge → List Charge
set_progress id progress charges =
    update (λ c. has_id id c && is_running c.progress) (λ c. record c { progress = progress })
      charges

-- A charge without a key has no entry.
unfoldable pub release : String → List (String × ℕ) → List (String × ℕ)
unfolding delete
release key cache = if key == "" then cache else delete key cache

-- `finish`, or failUncached up to its unlock.
unfoldable pub settle : Charge → Progress → MockPsp → MockPsp
unfolding release
settle c (Progress.dropped code) p = record p {
  cache = release c.request.idempotency_key p.cache;
  charges = set_progress c.id (Progress.dropped code) p.charges;
}
settle c progress p = record p { charges = set_progress c.id progress p.charges }

unfoldable pub complete_found : Option Charge → String → MockPsp → MockPsp
unfolding completion settle
complete_found none uuid p = p
complete_found (some c) uuid p =
    if is_running c.progress then settle c (completion c.request.card_token uuid) p else p

-- completeCharge of the handler that runs the charge `id`, after its sleep.
unfoldable pub complete_charge : ℕ → String → MockPsp → MockPsp
unfolding complete_found
complete_charge id uuid p = complete_found (find (has_id id) p.charges) uuid p

abbrev pub closed : Progress → Progress
closed (Progress.dropped code) = Progress.failed code
closed progress = progress

-- `close(entry.ready)` of failUncached.
unfoldable pub close_entry : ℕ → MockPsp → MockPsp
close_entry id p = record p {
  charges = update (has_id id) (λ c. record c { progress = closed c.progress }) p.charges;
}

-- `writeJSON`, or "internal server error" from 500 on.
abbrev pub cached_answer : ℕ → ChargeResponse → PspAnswer
cached_answer code resp =
    if leb 500 code then PspAnswer.text code "internal server error" else PspAnswer.json code resp

-- The answer to a handler that waits, once the entry is ready.
unfoldable pub answer_waiting : Progress → Option PspAnswer
answer_waiting (Progress.finished code resp) = some (cached_answer code resp)
answer_waiting (Progress.failed code) =
    some (cached_answer code (record { status = ""; psp_ref = ""; code = "" }))
answer_waiting _ = none

-- The answer to the handler that runs the charge.
unfoldable pub answer_running : Progress → Option PspAnswer
answer_running (Progress.finished code resp) = some (cached_answer code resp)
answer_running (Progress.failed code) = some (
    PspAnswer.text code (if nat_eq code 500 then "internal server error" else "unknown card token"))
answer_running _ = none
