-- ===== src/Auth/Access.antt =====
-- Who is let through.
use Prim.Native.String.{◌++◌}
use dodo_payment_gateway.Base.{
  suc, ◌≡◌, ◌∙◌, ◌↔◌, refl, sym, ap, inl, inr, String, true, Option, none, some, ◌==◌, find, arith,
  eq_iff, Bool-cases, subst,
}
use dodo_payment_gateway.Model.{ApiKey}
use dodo_payment_gateway.Errors.{ok}
use dodo_payment_gateway.Store.{
  World, Outcome, ◌>>=◌, pure, raise, try, asks, statement, or_no_rows,
}
use dodo_payment_gateway.Repository.ApiKeys
use dodo_payment_gateway.Payment.Guards.{return_or}
use dodo_payment_gateway.Auth.{authenticate_api_key, authenticate_with, bearer, split_space}
use dodo_payment_gateway.Auth.Header.{bearer-some_iff}

-- The answer to a request that names the key `k`.
abbrev pub Passes : String → ApiKey → World → Type 0
Passes raw_key k w = find (ApiKeys.is_active_with (w.env.sha256_hex raw_key)) w.db.api_keys ≡ some k

-- A header that says a key is split.
named-present :
    (auth_header : String) (w : World) {raw_key : String}
    → bearer (split_space auth_header) ≡ some raw_key
    → authenticate_api_key auth_header true w
      ≡ authenticate_with (bearer (split_space auth_header)) w
unfolding authenticate_api_key split_space bearer
named-present auth_header w h = elim (Bool-cases (auth_header == "")) [
  | inl empty ↦ cc (h, ap (λ s. bearer (split_space s)) ((eq_iff auth_header "").0 empty))
  | inr full ↦ rw full refl
]

module _ (k : ApiKey) (w : World) (o : w.env.outcome w.tick ≡ Outcome.works) where
  authenticate_with-some_iff :
      (raw_key : String)
      → (authenticate_with (some raw_key) w ≡ (ok (some k), record w { tick = suc w.tick }))
        ↔ Passes raw_key k w
  unfolding authenticate_with return_or ApiKeys.get_by_hash statement or_no_rows ◌>>=◌ raise pure
      try asks
  authenticate_with-some_iff raw_key = (λ h. ground arith, λ h. ground arith)

  authenticate_with-ok_iff :
      (header : Option String)
      → (authenticate_with header w ≡ (ok (some k), record w { tick = suc w.tick }))
        ↔ ((raw_key : String) × (header ≡ some raw_key) × Passes raw_key k w)
  unfolding authenticate_with raise
  authenticate_with-ok_iff none = (λ h. cc h, λ h. cc h.1)
  authenticate_with-ok_iff (some raw_key) = (
    λ h. (raw_key, refl, (authenticate_with-some_iff raw_key).0 h),
    λ (raw_key', same, found).
        (authenticate_with-some_iff raw_key).1 (subst (λ raw. Passes raw k w) (cc same) found),
  )

  -- A header that is absent lets nobody in.
  present :
      (auth_header : String)
      → authenticate_api_key auth_header true w ≡ (ok (some k), record w { tick = suc w.tick })
      → authenticate_with (bearer (split_space auth_header)) w
        ≡ (ok (some k), record w { tick = suc w.tick })
  unfolding authenticate_api_key raise
  present auth_header h = ground (arith, h)

  -- From a database that answers, a request is let in with the key `k` exactly if its header is
  -- "Bearer", a space and a text whose SHA-256 is the hash of `k`, the first such key of the table that
  -- is not revoked.
  pub authenticate_api_key-ok_iff :
      (auth_header : String)
      → (authenticate_api_key auth_header true w ≡ (ok (some k), record w { tick = suc w.tick }))
        ↔ ((raw_key : String) × (auth_header ≡ "Bearer " ++ raw_key) × Passes raw_key k w)
  authenticate_api_key-ok_iff auth_header = (
    λ h.
        let (raw_key, named, found) =
          (authenticate_with-ok_iff (bearer (split_space auth_header))).0 (present auth_header h) in
        (raw_key, (bearer-some_iff auth_header raw_key).0 named, found),
    λ (raw_key, written, found).
        let named = (bearer-some_iff auth_header raw_key).1 written in
        named-present auth_header w named
        ∙ (authenticate_with-ok_iff (bearer (split_space auth_header))).1 (raw_key, named, found),
  )

authenticate_with_refuses :
    (raw_key : String) (o : Option ApiKey) (w v : World)
    → find (ApiKeys.is_active_with (w.env.sha256_hex raw_key)) w.db.api_keys ≡ none
    → ¬ (authenticate_with (some raw_key) w ≡ (ok o, v))
unfolding authenticate_with return_or ApiKeys.get_by_hash statement or_no_rows ◌>>=◌ raise pure try
    asks
authenticate_with_refuses raw_key o w v gone h = ground arith

-- Whatever the database answers, a key that no active row has the hash of lets nobody in.
pub authenticate_refuses :
    (raw_key : String) (o : Option ApiKey) (w v : World)
    → find (ApiKeys.is_active_with (w.env.sha256_hex raw_key)) w.db.api_keys ≡ none
    → ¬ (authenticate_api_key ("Bearer " ++ raw_key) true w ≡ (ok o, v))
authenticate_refuses raw_key o w v gone h =
    let named = (bearer-some_iff ("Bearer " ++ raw_key) raw_key).1 refl in
    authenticate_with_refuses raw_key o w v gone (
      ap (λ x. authenticate_with x w) (sym named)
      ∙ sym (named-present ("Bearer " ++ raw_key) w named)
      ∙ h)
