-- ===== src/MockPsp/Kept.antt =====
-- A charge that has finished is not touched again.
use dodo_payment_gateway.Base.{
  ℕ, ◌≡◌, ◌∙◌, refl, ap, inl, inr, String, Bool, true, false, Option, none, some, List, ◌∷◌, ◌==◌,
  if◌then◌else◌, find, update, arith, Bool-cases, find-insert-some, find-update,
}
use dodo_payment_gateway.Store.{ChargeRequest}
use dodo_payment_gateway.MockPsp.{
  MockPsp, Charge, Progress, has_id, is_running, lookup, new_charge, start, get_or_start,
  accept_charge, handle_charge, completion, settle, complete_found, complete_charge, closed,
  close_entry,
}
use dodo_payment_gateway.MockPsp.Steps.{Steps, starts, arrives, completes, closes}

abbrev pub is_finished : Progress → Bool
is_finished (Progress.finished code resp) = true
is_finished _ = false

start-kept :
    (request : ChargeRequest) (cache : List (String × ℕ)) (q : MockPsp) (id : ℕ) (c : Charge)
    → find (has_id id) q.charges ≡ some c
    → find (has_id id) (start request cache q).1.charges ≡ some c
unfolding start
start-kept request cache q id c h =
    find-insert-some (has_id id) (new_charge q.next_id request) c q.charges h

get-kept :
    (request : ChargeRequest) (q : MockPsp) (o : Option ℕ) (id : ℕ) (c : Charge)
    → find (has_id id) q.charges ≡ some c
    → find (has_id id) (get_or_start request q o).1.charges ≡ some c
unfolding get_or_start
get-kept request q (some i) id c h = h
get-kept request q none id c h =
    start-kept request ((request.idempotency_key, q.next_id) ∷ q.cache) q id c h

arrive-kept :
    (method : String) (body : Option ChargeRequest) (q : MockPsp) (id : ℕ) (c : Charge)
    → find (has_id id) q.charges ≡ some c
    → find (has_id id) (handle_charge method body q).1.charges ≡ some c
unfolding handle_charge accept_charge
arrive-kept method none q id c h = h
arrive-kept method (some request) q id c h = elim (Bool-cases (method == "POST")) [
  | inl post ↦ elim (Bool-cases (request.card_token == "")) [
    | inl absent ↦ rw (post, absent) h
    | inr given ↦ elim (Bool-cases (request.idempotency_key == "")) [
      | inl unnamed ↦ rw (post, given, unnamed) (start-kept request q.cache q id c h)
      | inr named ↦
          rw (post, given, named)
            (get-kept request q (lookup request.idempotency_key q.cache) id c h)
    ]
  ]
  | inr other ↦ rw other h
]

-- A charge that has finished stays as it is.
changed-kept :
    (q : Charge → Bool) (f : Charge → Charge) (charges : List Charge) (id : ℕ) (c : Charge)
    → ((i : ℕ) (x : Charge) → has_id i (f x) ≡ has_id i x)
    → (if q c then f c else c) ≡ c
    → find (has_id id) charges ≡ some c
    → find (has_id id) (update q f charges) ≡ some c
changed-kept q f charges id c ids same h =
    find-update (has_id id) q f charges (ids id)
    ∙ ap (λ o. elim o [ none ↦ none | some x ↦ some (if q x then f x else x) ]) h
    ∙ ap some same

settle-kept :
    (d : Charge) (progress : Progress) (q : MockPsp) (id : ℕ) (c : Charge)
    → is_finished c.progress ≡ true
    → find (has_id id) q.charges ≡ some c
    → find (has_id id) (settle d progress q).charges ≡ some c
unfolding settle
settle-kept d Progress.running q id c done h =
    changed-kept _ _ q.charges id c (λ i x. refl) (ground (arith, done)) h
settle-kept d (Progress.dropped code) q id c done h =
    changed-kept _ _ q.charges id c (λ i x. refl) (ground (arith, done)) h
settle-kept d (Progress.failed code) q id c done h =
    changed-kept _ _ q.charges id c (λ i x. refl) (ground (arith, done)) h
settle-kept d (Progress.finished code resp) q id c done h =
    changed-kept _ _ q.charges id c (λ i x. refl) (ground (arith, done)) h

complete-kept :
    (o : Option Charge) (uuid : String) (q : MockPsp) (id : ℕ) (c : Charge)
    → is_finished c.progress ≡ true
    → find (has_id id) q.charges ≡ some c
    → find (has_id id) (complete_found o uuid q).charges ≡ some c
unfolding complete_found
complete-kept none uuid q id c done h = h
complete-kept (some d) uuid q id c done h = elim (Bool-cases (is_running d.progress)) [
  | inl runs ↦ rw runs (settle-kept d (completion d.request.card_token uuid) q id c done h)
  | inr ended ↦ rw ended h
]

closed-same : (progress : Progress) → is_finished progress ≡ true → closed progress ≡ progress
closed-same (Progress.finished code resp) done = refl
closed-same Progress.running done = cc
closed-same (Progress.dropped code) done = cc
closed-same (Progress.failed code) done = cc

closed_finished :
    (c : Charge) → is_finished c.progress ≡ true → record c { progress = closed c.progress } ≡ c
closed_finished c done = ap (λ x. record c { progress = x }) (closed-same c.progress done)

pub Steps-kept :
    {p q : MockPsp}
    → Steps p q
    → (id : ℕ) (c : Charge) → is_finished c.progress ≡ true
    → find (has_id id) p.charges ≡ some c
    → find (has_id id) q.charges ≡ some c
unfolding complete_charge close_entry
Steps-kept (starts p) id c done h = h
Steps-kept (arrives {q = q} s method body) id c done h =
    arrive-kept method body q id c (Steps-kept s id c done h)
Steps-kept (completes {q = q} s i uuid) id c done h =
    complete-kept (find (has_id i) q.charges) uuid q id c done (Steps-kept s id c done h)
Steps-kept (closes {q = q} s i) id c done h =
    changed-kept (has_id i) (λ x. record x { progress = closed x.progress }) q.charges id c
      (λ j x. refl) (ground (arith, closed_finished c done)) (Steps-kept s id c done h)
