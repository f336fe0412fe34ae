-- ===== src/Handlers/Access.antt =====
-- What the routes behind APIKeyAuth answer, and to whom.
use Prim.Native.String.{◌++◌}
use dodo_payment_gateway.Base.{
  ℕ, ◌≡◌, ◌∙◌, refl, sym, ap, String, true, Option, none, some, find, arith, Option-cases, inl, inr,
}
use dodo_payment_gateway.Model.{ApiKey}
use dodo_payment_gateway.Errors.{Result, ok, err}
use dodo_payment_gateway.Store.{World, M, ◌>>=◌, pure, raise, try, asks, statement, or_no_rows}
use dodo_payment_gateway.Store.Laws.{bind_elim, try-ok}
use dodo_payment_gateway.Repository.ApiKeys
use dodo_payment_gateway.Payment.Guards.{return_or}
use dodo_payment_gateway.Auth.{
  authenticate_api_key, authenticate_with, api_key_auth, bearer, split_space,
}
use dodo_payment_gateway.Auth.Header.{bearer-some_iff}
use dodo_payment_gateway.Auth.Access.{Passes}
use dodo_payment_gateway.Handlers.{Answer}
use dodo_payment_gateway.Handlers.Routes.{with_api_key, go_on, context_of}

-- The header is "Bearer", a space and the text of the active key `key`, read in `w`, and nothing has
-- been changed up to `u`.
pub record Admitted (auth_header : String) (key : ApiKey) (w u : World) : Type 0 where
  pub raw_key : String
  pub written : auth_header ≡ "Bearer " ++ raw_key
  pub passes : Passes raw_key key w
  pub rows : u.db ≡ w.db
  pub charges : u.charges ≡ w.charges

authenticate_with-ok :
    (header : Option String) (w : World) {o : Option ApiKey} {u : World}
    → authenticate_with header w ≡ (ok o, u)
    → (raw_key : String) × (key : ApiKey) × (header ≡ some raw_key)
      × (o ≡ some key)
      × Passes raw_key key w
      × (u.db ≡ w.db)
      × (u.charges ≡ w.charges)
unfolding authenticate_with return_or ApiKeys.get_by_hash statement or_no_rows ◌>>=◌ raise pure try
    asks
authenticate_with-ok none w h = cc h
authenticate_with-ok (some raw_key) w h =
    elim (Option-cases (find (ApiKeys.is_active_with (w.env.sha256_hex raw_key)) w.db.api_keys)) [
      | inl gone ↦ absurd (ground (arith, h, gone))
      | inr (key, found) ↦ (
        raw_key,
        key,
        refl,
        ground (arith, h, found),
        found,
        ground (arith, h, found),
        ground (arith, h, found),
      )
    ]

named :
    (auth_header : String) (w : World) {o : Option ApiKey} {u : World}
    → authenticate_api_key auth_header true w ≡ (ok o, u)
    → authenticate_with (bearer (split_space auth_header)) w ≡ (ok o, u)
unfolding authenticate_api_key raise
named auth_header w h = ground (arith, h)

api_key_auth-Admitted :
    (auth_header : String) (w : World) {o : Option ApiKey} {u : World}
    → api_key_auth auth_header w ≡ (ok o, u)
    → (key : ApiKey) × (o ≡ some key) × Admitted auth_header key w u
unfolding api_key_auth
api_key_auth-Admitted auth_header w h =
    let (raw_key, key, header, given, passes, rows, charges) =
      authenticate_with-ok (bearer (split_space auth_header)) w (named auth_header w h) in
    (
      key,
      given,
      record {
        raw_key = raw_key;
        written = (bearer-some_iff auth_header raw_key).0 header;
        passes = passes;
        rows = rows;
        charges = charges;
      },
    )

module _ {A : Type 0} where
  go_on-sent :
      (handler : Option String → M (Answer A)) (r : Result (Option ApiKey)) (w : World) {status : ℕ}
      {a : A} {w' : World}
      → go_on handler r w ≡ (ok (Answer.sent status a), w')
      → (o : Option ApiKey) × (r ≡ ok o)
        × (handler (context_of o) w ≡ (ok (Answer.sent status a), w'))
  unfolding go_on asks
  go_on-sent handler (ok o) w h = (o, refl, h)
  go_on-sent handler (err e) w h = cc h

  -- Behind APIKeyAuth, whatever the handler and whatever the database answers, a request is answered with
  -- a value only if its header has the text of an active key; the handler is then called with the
  -- business of that key, with nothing changed and nothing sent to the processor before, and its answer is the
  -- answer.
  pub with_api_key-sent :
      (auth_header : String) (handler : Option String → M (Answer A)) (w : World) {status : ℕ}
      {a : A} {w' : World}
      → with_api_key auth_header handler w ≡ (ok (Answer.sent status a), w')
      → (key : ApiKey) × (u : World) × Admitted auth_header key w u
        × (handler (some key.business_id) u ≡ (ok (Answer.sent status a), w'))
  unfolding with_api_key
  with_api_key-sent auth_header handler w h =
      bind_elim (try (api_key_auth auth_header)) _ w h λ r u asked rest.
        let (o, same, handled) = go_on-sent handler r u rest in
        let (key, given, admitted) =
          api_key_auth-Admitted auth_header w
            (try-ok (api_key_auth auth_header) w asked ∙ ap (λ x. (x, u)) same) in
        (key, u, admitted, sym (ap (λ x. handler (context_of x) u) given) ∙ handled)
