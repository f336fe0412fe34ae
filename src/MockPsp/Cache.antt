-- ===== src/MockPsp/Cache.antt =====
-- The invariant of the cache, and that a request which arrives keeps it.
use dodo_payment_gateway.Base.{
  ℕ, suc, ◌≤◌, ◌≡◌, ◌∙◌, refl, sym, ap, subst, inl, inr, String, Bool, true, false, ◌&&◌, Option,
  none, some, List, [], ◌∷◌, ◌==◌, is_some, if◌then◌else◌, find, count, insert, arith, eq_iff,
  Bool-cases, count-insert, find-insert-some, find-insert-none, count-eq-zero_of_find-none,
}
use dodo_payment_gateway.Store.{ChargeRequest}
use dodo_payment_gateway.MockPsp.{
  MockPsp, Charge, Progress, has_id, lookup, delete, release, new_charge, start, get_or_start,
  accept_charge, handle_charge, initial,
}

-- Not given up: it runs or has an answer that is kept.
abbrev pub is_kept : Progress → Bool
is_kept (Progress.dropped code) = false
is_kept (Progress.failed code) = false
is_kept _ = true

abbrev pub is_kept_for : String → Charge → Bool
is_kept_for key c = c.request.idempotency_key == key && is_kept c.progress

-- Each key has one kept charge if it is in the cache and else none, and its entry is that charge's.
pub record Inv (p : MockPsp) : Type 0 where
  pub ids : (id : ℕ) → count (has_id id) p.charges ≤ 1
  pub unnamed : lookup "" p.cache ≡ none
  pub fresh : (id : ℕ) → p.next_id ≤ id → find (has_id id) p.charges ≡ none
  pub cached :
      (key : String) (id : ℕ)
      → lookup key p.cache ≡ some id
      → (c : Charge) × (find (has_id id) p.charges ≡ some c) × (is_kept_for key c ≡ true)
  pub alone :
      (key : String)
      → (key == "") ≡ false
      → count (is_kept_for key) p.charges ≡ (if is_some (lookup key p.cache) then 1 else 0)

pub initial-Inv : Inv initial
unfolding find lookup count
initial-Inv = record {
  ids = λ id. omega arith;
  unnamed = refl;
  fresh = λ id h. refl;
  cached = λ key id h. cc h;
  alone = λ key h. refl;
}

lookup-delete :
    (k key : String) (cache : List (String × ℕ))
    → lookup k (delete key cache) ≡ (if key == k then none else lookup k cache)
unfolding lookup delete
lookup-delete k key [] = ground arith
lookup-delete k key ((j, id) ∷ cache) =
    ground (arith, lookup-delete k key cache, eq_iff j key, eq_iff j k, eq_iff key k)

pub lookup-release :
    (k key : String) (cache : List (String × ℕ))
    → lookup "" cache ≡ none
    → lookup k (release key cache) ≡ (if key == k then none else lookup k cache)
unfolding release
lookup-release k key cache unnamed = elim (Bool-cases (key == "")) [
  | inl empty ↦ elim (Bool-cases (key == k)) [
    | inl hit ↦
        rw (empty, hit)
          (ap (λ t. lookup t cache) (sym ((eq_iff key k).0 hit) ∙ (eq_iff key "").0 empty)
            ∙ unnamed)
    | inr miss ↦ rw (empty, miss) refl
  ]
  | inr named ↦ rw named (lookup-delete k key cache)
]

-- A charge that is added is found under the next id, and hides none.
find-insert-new :
    (request : ChargeRequest) (p : MockPsp)
    → Inv p
    → find (has_id p.next_id) (insert (new_charge p.next_id request) p.charges)
      ≡ some (new_charge p.next_id request)
find-insert-new request p inv =
    find-insert-none (has_id p.next_id) (new_charge p.next_id request) p.charges
      (inv.fresh p.next_id (omega arith))
    ∙ ground arith

insert-fresh :
    (request : ChargeRequest) (p : MockPsp)
    → Inv p
    → (id : ℕ) → suc p.next_id ≤ id
    → find (has_id id) (insert (new_charge p.next_id request) p.charges) ≡ none
insert-fresh request p inv id h =
    find-insert-none (has_id id) (new_charge p.next_id request) p.charges
      (inv.fresh id (omega (arith, h)))
    ∙ ground (arith, h)

abbrev Cached : MockPsp → String → ℕ → Type 0
Cached p key id = (c : Charge) × (find (has_id id) p.charges ≡ some c) × (is_kept_for key c ≡ true)

keeps_Cached :
    (request : ChargeRequest) (p : MockPsp) (key : String) (id : ℕ)
    → Cached p key id
    → (c : Charge) × (find (has_id id) (insert (new_charge p.next_id request) p.charges) ≡ some c)
      × (is_kept_for key c ≡ true)
keeps_Cached request p key id (c, found, kept) =
    (c, find-insert-some (has_id id) (new_charge p.next_id request) c p.charges found, kept)

insert-ids :
    (request : ChargeRequest) (p : MockPsp)
    → Inv p
    → (id : ℕ) → count (has_id id) (insert (new_charge p.next_id request) p.charges) ≤ 1
insert-ids request p inv id = ground (
  arith,
  count-insert (has_id id) (new_charge p.next_id request) p.charges,
  inv.ids id,
  inv.fresh id,
  count-eq-zero_of_find-none (has_id id) p.charges,
)

-- A charge with a key that is not in the cache, and one without a key.
start_cached-Inv :
    (request : ChargeRequest) (p : MockPsp)
    → Inv p
    → (request.idempotency_key == "") ≡ false
    → lookup request.idempotency_key p.cache ≡ none
    → Inv (start request ((request.idempotency_key, p.next_id) ∷ p.cache) p).1
unfolding start lookup
start_cached-Inv request p inv named free = record {
  ids = insert-ids request p inv;
  unnamed = ground (arith, named, inv.unnamed);
  fresh = insert-fresh request p inv;
  cached = λ key id h. elim (Bool-cases (request.idempotency_key == key)) [
    | inl hit ↦
        let same : p.next_id ≡ id = ground (arith, h, hit) in
        (
          new_charge p.next_id request,
          subst
              (λ i.
                find (has_id i) (insert (new_charge p.next_id request) p.charges)
                ≡ some (new_charge p.next_id request))
              same (find-insert-new request p inv),
          ground (arith, hit),
        )
    | inr miss ↦ keeps_Cached request p key id (inv.cached key id (ground (arith, h, miss)))
  ];
  alone = λ key h. elim (Bool-cases (request.idempotency_key == key)) [
    | inl hit ↦ ground (
      arith,
      hit,
      count-insert (is_kept_for key) (new_charge p.next_id request) p.charges,
      inv.alone key h,
      ap (λ k. lookup k p.cache) ((eq_iff request.idempotency_key key).0 hit),
      free,
    )
    | inr miss ↦ ground (
      arith,
      miss,
      count-insert (is_kept_for key) (new_charge p.next_id request) p.charges,
      inv.alone key h,
    )
  ];
}

start_uncached-Inv :
    (request : ChargeRequest) (p : MockPsp)
    → Inv p
    → (request.idempotency_key == "") ≡ true
    → Inv (start request p.cache p).1
unfolding start
start_uncached-Inv request p inv unnamed = record {
  ids = insert-ids request p inv;
  unnamed = inv.unnamed;
  fresh = insert-fresh request p inv;
  cached = λ key id h. keeps_Cached request p key id (inv.cached key id h);
  alone = λ key h.
      let other : (request.idempotency_key == key) ≡ false = ground (
        arith,
        unnamed,
        h,
        eq_iff request.idempotency_key "",
        eq_iff request.idempotency_key key,
        eq_iff key "",
      ) in
      ground (
        arith,
        other,
        count-insert (is_kept_for key) (new_charge p.next_id request) p.charges,
        inv.alone key h,
      );
}

get_or_start-Inv :
    (request : ChargeRequest) (p : MockPsp) (o : Option ℕ)
    → Inv p
    → (request.idempotency_key == "") ≡ false
    → lookup request.idempotency_key p.cache ≡ o
    → Inv (get_or_start request p o).1
unfolding get_or_start
get_or_start-Inv request p (some id) inv named h = inv
get_or_start-Inv request p none inv named h = start_cached-Inv request p inv named h

accept_charge-Inv :
    (request : ChargeRequest) (p : MockPsp) → Inv p → Inv (accept_charge request p).1
unfolding accept_charge
accept_charge-Inv request p inv = elim (Bool-cases (request.card_token == "")) [
  | inl absent ↦ rw absent inv
  | inr given ↦ elim (Bool-cases (request.idempotency_key == "")) [
    | inl unnamed ↦ rw (given, unnamed) (start_uncached-Inv request p inv unnamed)
    | inr named ↦
        rw (given, named)
          (get_or_start-Inv request p (lookup request.idempotency_key p.cache) inv named refl)
  ]
]

pub handle_charge-Inv :
    (method : String) (body : Option ChargeRequest) (p : MockPsp)
    → Inv p
    → Inv (handle_charge method body p).1
unfolding handle_charge
handle_charge-Inv method none p inv = inv
handle_charge-Inv method (some request) p inv = elim (Bool-cases (method == "POST")) [
  | inl post ↦ rw post (accept_charge-Inv request p inv)
  | inr other ↦ rw other inv
]
