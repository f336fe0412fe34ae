-- ===== src/MockPsp/Release.antt =====
-- A charge that ends keeps the invariant.
use dodo_payment_gateway.Base.{
  ℕ, ◌≤◌, ◌≡◌, ◌∙◌, refl, sym, ap, subst, inl, inr, String, Bool, true, false, not, ◌&&◌, Option,
  none, some, List, ◌==◌, is_some, if◌then◌else◌, find, count, update, arith, eq_iff, Bool-cases,
  count-update_same, count-eq_of_update, count_split, count-pos_of_find_and, find-update,
  find_holds, find_fewer, eq_refl, count-eq-zero_of_find,
}
use dodo_payment_gateway.MockPsp.{
  MockPsp, Charge, Progress, has_id, is_running, lookup, release, completion, settle,
  complete_found, complete_charge, closed, close_entry,
}
use dodo_payment_gateway.MockPsp.Cache.{is_kept_for, Inv, lookup-release}

-- A change of some charges that keeps their ids and whether they are kept for a key.
module _ (q : Charge → Bool) (f : Charge → Charge)
    (ids : (id : ℕ) (c : Charge) → has_id id (f c) ≡ has_id id c) (p : MockPsp) where
  find-changed :
      (id : ℕ) {c : Charge}
      → find (has_id id) p.charges ≡ some c
      → find (has_id id) (update q f p.charges) ≡ some (if q c then f c else c)
  find-changed id {c} found =
      find-update (has_id id) q f p.charges (ids id)
      ∙ ap (λ o. elim o [ none ↦ none | some x ↦ some (if q x then f x else x) ]) found

  find-changed_none :
      (id : ℕ) → find (has_id id) p.charges ≡ none → find (has_id id) (update q f p.charges) ≡ none
  find-changed_none id gone =
      find-update (has_id id) q f p.charges (ids id)
      ∙ ap (λ o. elim o [ none ↦ none | some x ↦ some (if q x then f x else x) ]) gone

  change-Inv :
      ((key : String) (c : Charge) → q c ≡ true → is_kept_for key (f c) ≡ is_kept_for key c)
      → Inv p
      → Inv (record p { charges = update q f p.charges })
  change-Inv same inv = record {
    ids = λ id.
        omega (arith, inv.ids id, count-update_same (has_id id) q f p.charges (λ c _. ids id c));
    unnamed = inv.unnamed;
    fresh = λ id h. find-changed_none id (inv.fresh id h);
    cached = λ key id h.
        let (c, found, kept) = inv.cached key id h in
        (if q c then f c else c, find-changed id found, ground (arith, same key c, kept));
    alone = λ key h. count-update_same (is_kept_for key) q f p.charges (same key) ∙ inv.alone key h;
  }

at_most_one : (b : Bool) → (if b then 1 else 0) ≤ 1
at_most_one b = ground arith

abbrev is_owner : ℕ → Charge → Bool
is_owner id c = has_id id c && is_running c.progress

module _ (c : Charge) (code : ℕ) (p : MockPsp) (inv : Inv p) (runs : is_running c.progress ≡ true)
    (found : find (has_id c.id) p.charges ≡ some c) where
  abbrev give_up : Charge → Charge
  give_up x = record x { progress = Progress.dropped code }

  abbrev left : List Charge
  left = update (is_owner c.id) give_up p.charges

  -- What is kept for a key, without the charge that is given up.
  left-count :
      (key : String)
      → count (is_kept_for key) left
        ≡ count (λ x. is_kept_for key x && not (is_owner c.id x)) p.charges
  left-count key =
      count-eq_of_update (is_kept_for key) (λ x. is_kept_for key x && not (is_owner c.id x))
        (is_owner c.id) give_up p.charges (λ x. ground arith)

  owner_found : find (is_owner c.id) p.charges ≡ some c
  owner_found =
      find_fewer (has_id c.id) (is_owner c.id) c p.charges found (ground (arith, runs))
        (λ x h. ground (arith, h))

  -- With a key, it is the only charge kept for the key, so that none is left.
  none_left :
      (c.request.idempotency_key == "") ≡ false
      → count (is_kept_for c.request.idempotency_key) left ≡ 0
  none_left named = omega (
    arith,
    at_most_one (is_some (lookup c.request.idempotency_key p.cache)),
    inv.alone c.request.idempotency_key named,
    left-count c.request.idempotency_key,
    count-pos_of_find_and (is_owner c.id) (is_kept_for c.request.idempotency_key) c p.charges
        owner_found (ground (arith, runs, eq_refl c.request.idempotency_key)),
    count_split (is_owner c.id) (is_kept_for c.request.idempotency_key) p.charges,
  )

  -- Of another key, nothing is given up.
  others_left :
      (key : String)
      → (c.request.idempotency_key == key) ≡ false
      → count (is_kept_for key) left ≡ count (is_kept_for key) p.charges
  others_left key other = omega (
    arith,
    left-count key,
    count_split (is_owner c.id) (is_kept_for key) p.charges,
    count-eq-zero_of_find (has_id c.id) (λ x. is_kept_for key x && is_owner c.id x) c p.charges
        (inv.ids c.id) found (ground (arith, other)) (λ x h. ground (arith, h)),
  )

  twin :
      (key : String) (id : ℕ) (x : Charge)
      → (c.request.idempotency_key == key) ≡ false
      → find (has_id id) p.charges ≡ some x
      → is_kept_for key x ≡ true
      → ¬ (is_owner c.id x ≡ true)
  twin key id x other there kept owns =
      let same : id ≡ c.id = ground (arith, owns, find_holds (has_id id) x p.charges there) in
      let both : some x ≡ some c =
        sym (subst (λ i. find (has_id i) p.charges ≡ some x) same there) ∙ found in
      let one : x ≡ c = cc both in
      ground (arith, other, kept, ap (λ (y : Charge). y.request.idempotency_key == key) one)

  -- A charge that is cached for another key is not given up.
  cached_left :
      (key : String) (id : ℕ)
      → (c.request.idempotency_key == key) ≡ false
      → lookup key p.cache ≡ some id
      → (x : Charge) × (find (has_id id) left ≡ some x) × (is_kept_for key x ≡ true)
  cached_left key id other h =
      let (x, there, kept) = inv.cached key id h in
      elim (Bool-cases (is_owner c.id x)) [
        | inl owns ↦ absurd (twin key id x other there kept owns)
        | inr free ↦ (
          x,
          find-changed (is_owner c.id) give_up (λ i y. refl) p id there ∙ ground (arith, free),
          kept,
        )
      ]

  release-alone :
      (key : String)
      → (key == "") ≡ false
      → count (is_kept_for key) left
        ≡ (if is_some (lookup key (release c.request.idempotency_key p.cache)) then 1 else 0)
  release-alone key h = elim (Bool-cases (c.request.idempotency_key == key)) [
    | inl hit ↦
        let same : c.request.idempotency_key ≡ key = (eq_iff c.request.idempotency_key key).0 hit in
        subst (λ k. count (is_kept_for k) left ≡ 0) same (none_left (ap (λ k. k == "") same ∙ h))
        ∙ ground (arith, hit, lookup-release key c.request.idempotency_key p.cache inv.unnamed)
    | inr miss ↦
        others_left key miss
        ∙ inv.alone key h
        ∙ ground (arith, miss, lookup-release key c.request.idempotency_key p.cache inv.unnamed)
  ]

  release-cached :
      (key : String) (id : ℕ)
      → lookup key (release c.request.idempotency_key p.cache) ≡ some id
      → (x : Charge) × (find (has_id id) left ≡ some x) × (is_kept_for key x ≡ true)
  release-cached key id h =
      let before = lookup-release key c.request.idempotency_key p.cache inv.unnamed in
      elim (Bool-cases (c.request.idempotency_key == key)) [
        | inl hit ↦ absurd (ground (arith, h, before, hit))
        | inr miss ↦ cached_left key id miss (ground (arith, h, before, miss))
      ]

  release-Inv : Inv (record p { cache = release c.request.idempotency_key p.cache; charges = left })
  release-Inv = record {
    ids = λ id. omega (
      arith,
      inv.ids id,
      count-update_same (has_id id) (is_owner c.id) give_up p.charges (λ x _. refl),
    );
    unnamed =
        ground
          (arith, inv.unnamed, lookup-release "" c.request.idempotency_key p.cache inv.unnamed);
    fresh = λ id h. find-changed_none (is_owner c.id) give_up (λ i y. refl) p id (inv.fresh id h);
    cached = release-cached;
    alone = release-alone;
  }

closed-kept :
    (key : String) (c : Charge)
    → is_kept_for key (record c { progress = closed c.progress }) ≡ is_kept_for key c
closed-kept key c = ground arith

-- How completeCharge may leave a charge.
abbrev is_end : Progress → Bool
is_end (Progress.finished code resp) = true
is_end (Progress.dropped code) = true
is_end _ = false

completion_ends : (card_token uuid : String) → is_end (completion card_token uuid) ≡ true
unfolding completion
completion_ends card_token uuid = ground arith

settle-Inv :
    (c : Charge) (progress : Progress) (p : MockPsp)
    → Inv p
    → is_running c.progress ≡ true
    → find (has_id c.id) p.charges ≡ some c
    → is_end progress ≡ true
    → Inv (settle c progress p)
unfolding settle
settle-Inv c Progress.running p inv runs found ends = cc ends
settle-Inv c (Progress.dropped code) p inv runs found ends = release-Inv c code p inv runs found
settle-Inv c (Progress.failed code) p inv runs found ends = cc ends
settle-Inv c (Progress.finished code resp) p inv runs found ends =
    change-Inv (is_owner c.id) (λ x. record x { progress = Progress.finished code resp })
      (λ i y. refl) p (λ key x h. ground (arith, h)) inv

complete_found-Inv :
    (id : ℕ) (o : Option Charge) (uuid : String) (p : MockPsp)
    → Inv p
    → find (has_id id) p.charges ≡ o
    → Inv (complete_found o uuid p)
unfolding complete_found
complete_found-Inv id none uuid p inv h = inv
complete_found-Inv id (some c) uuid p inv h = elim (Bool-cases (is_running c.progress)) [
  | inl runs ↦
      let same : id ≡ c.id = ground (arith, find_holds (has_id id) c p.charges h) in
      rw runs (
        settle-Inv c (completion c.request.card_token uuid) p inv runs
          (subst (λ i. find (has_id i) p.charges ≡ some c) same h)
          (completion_ends c.request.card_token uuid))
  | inr done ↦ rw done inv
]

pub complete_charge-Inv :
    (id : ℕ) (uuid : String) (p : MockPsp) → Inv p → Inv (complete_charge id uuid p)
unfolding complete_charge
complete_charge-Inv id uuid p inv =
    complete_found-Inv id (find (has_id id) p.charges) uuid p inv refl

pub close_entry-Inv : (id : ℕ) (p : MockPsp) → Inv p → Inv (close_entry id p)
unfolding close_entry
close_entry-Inv id p inv =
    change-Inv (has_id id) (λ c. record c { progress = closed c.progress }) (λ i y. refl) p
      (λ key x h. closed-kept key x) inv
