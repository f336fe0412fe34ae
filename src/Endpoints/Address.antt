-- ===== src/Endpoints/Address.antt =====
-- What SetEndpoint does when it returns.
use Prim.Native.String.{◌++◌}
use dodo_payment_gateway.Base.{
  eq_iff, inl, inr, ◌⊎◌, Bool-cases, ◌≡◌, ◌∙◌, refl, sym, ap, subst, String, List, false, some,
  ◌==◌, find, update, arith, find-update, find_holds,
}
use dodo_payment_gateway.Base.Trim.{trim_space}
use dodo_payment_gateway.Model.{Business}
use dodo_payment_gateway.Errors.{ok}
use dodo_payment_gateway.Store.{Db, World, ◌>>=◌, pure, asks, new_random, statement, or_no_rows}
use dodo_payment_gateway.Store.Laws.{bind_elim, asks-ok, pure-ok}
use dodo_payment_gateway.Repository.Businesses
use dodo_payment_gateway.Payment.Guards.{raise_if-ok}
use dodo_payment_gateway.Accounts.{new_secret}
use dodo_payment_gateway.Endpoints.{set_endpoint, set_trimmed_endpoint, secret_or_new}

business-ok :
    (id : String) (w : World) {b : Business} {u : World}
    → Businesses.get_by_id id w ≡ (ok b, u)
    → (find (Businesses.has_id id) w.db.businesses ≡ some b) × (u.db ≡ w.db)
unfolding Businesses.get_by_id statement or_no_rows
business-ok id w h = (ground arith, ground arith)

secret-ok :
    (secret : String) (w : World) {s : String} {u : World}
    → secret_or_new secret w ≡ (ok s, u)
    → (((secret ≡ "") × (s ≡ "whsec_" ++ w.env.random_hex w.tick)) ⊎ (s ≡ secret)) × (u.db ≡ w.db)
unfolding secret_or_new new_secret new_random ◌>>=◌ pure
secret-ok secret w h = (
  elim (Bool-cases (secret == "")) [
    | inl empty ↦ inl ((eq_iff secret "").0 empty, ground (arith, empty))
    | inr full ↦ inr (ground (arith, full))
  ],
  ground arith,
)

abbrev addressed : String → String → Business → Business
addressed url secret b = record b { webhook_url = some url; webhook_secret = secret }

addressed_row :
    (id url secret : String) (rows : List Business) {before : Business}
    → find (Businesses.has_id id) rows ≡ some before
    → find (Businesses.has_id id) (update (Businesses.has_id id) (addressed url secret) rows)
      ≡ some (addressed url secret before)
addressed_row id url secret rows {before} found =
    find-update (Businesses.has_id id) (Businesses.has_id id) (addressed url secret) rows
      (λ x. refl)
    ∙ ground (arith, found, find_holds (Businesses.has_id id) before rows found)

update-ok :
    (id url secret : String) (w : World) {u : World}
    → Businesses.update_webhook_endpoint id url secret w ≡ (ok tt, u)
    → u.db.businesses ≡ update (Businesses.has_id id) (addressed url secret) w.db.businesses
unfolding Businesses.update_webhook_endpoint Businesses.update_endpoint_query statement
update-ok id url secret w h = ground arith

-- The business's row, `before` and now `b`, with the endpoint `url` and the secret that it had, if any.
pub record Addressed (business_id url : String) (before b : Business) (d d' : Db) : Type 0 where
  pub row : find (Businesses.has_id business_id) d.businesses ≡ some before
  pub row_after : find (Businesses.has_id business_id) d'.businesses ≡ some b
  pub address : b.webhook_url ≡ some url
  pub kept : (before.webhook_secret ≡ "") ⊎ (b.webhook_secret ≡ before.webhook_secret)

trimmed-Addressed :
    (business_id url : String) (w : World) {b : Business} {w' : World}
    → set_trimmed_endpoint business_id url w ≡ (ok b, w')
    → (before : Business) × Addressed business_id url before b w.db w'.db
unfolding set_trimmed_endpoint
trimmed-Addressed business_id url w {b} {w'} h =
    bind_elim (Businesses.get_by_id business_id) _ w h λ before u1 read h1.
      bind_elim (secret_or_new before.webhook_secret) _ u1 h1 λ secret u2 chosen h2.
        bind_elim (Businesses.update_webhook_endpoint business_id url secret) _ u2 h2
          λ _ u3 updated done.
            let (found, same) = business-ok business_id w read in
            let (kept, same') = secret-ok before.webhook_secret u1 chosen in
            let rows = update-ok business_id url secret u2 updated in
            let (shape, last) = pure-ok _ u3 done in
            let stored =
              ap (λ (x : World). find (Businesses.has_id business_id) x.db.businesses) (sym last)
              ∙ ap (find (Businesses.has_id business_id)) rows
              ∙ ap
                  (λ (d : Db).
                    find (Businesses.has_id business_id)
                      (update (Businesses.has_id business_id) (addressed url secret) d.businesses))
                  (same' ∙ same)
              ∙ addressed_row business_id url secret w.db.businesses found in
            (
              before,
              record {
                row = found;
                row_after = stored ∙ ap (λ x. some x) shape;
                address = sym (ap (λ (x : Business). x.webhook_url) shape);
                kept = elim kept [
                  | inl (none_before, _) ↦ inl none_before
                  | inr same ↦ inr (sym (ap (λ (x : Business). x.webhook_secret) shape) ∙ same)
                ];
              },
            )

-- SetEndpoint, when it returns, has changed the row of a business that exists: its endpoint is the URL
-- that was given, trimmed and not empty, and its secret, if it had one, is still the same.
pub set_endpoint-Addressed :
    (business_id url : String) (w : World) {b : Business} {w' : World}
    → set_endpoint business_id url w ≡ (ok b, w')
    → ((trim_space w.env.is_space url == "") ≡ false)
      × (before : Business) × Addressed business_id
          (trim_space w.env.is_space url)
          before
          b
          w.db
          w'.db
unfolding set_endpoint
set_endpoint-Addressed business_id url w {b} {w'} h =
    bind_elim (asks _) _ w h λ trimmed u1 asked h1. bind_elim _ _ u1 h1 λ _ u2 named rest.
      let (same, start) = asks-ok _ w asked in
      let (full, next) = raise_if-ok _ _ u1 named in
      let (before, done) = trimmed-Addressed business_id trimmed u2 rest in
      (
        ap (λ x. x == "") same ∙ full,
        before,
        subst (λ x. Addressed business_id x before b w.db w'.db) (sym same)
            (subst (λ (x : World). Addressed business_id trimmed before b x.db w'.db)
              (sym next ∙ sym start) done),
      )
