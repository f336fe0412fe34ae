-- ===== src/Accounts/Invoicing.antt =====
-- What CreateInvoice does when it returns.
use dodo_payment_gateway.Base.{
  ℕ, ◌≡◌, ◌∙◌, refl, sym, ap, subst, String, Bool, true, false, not, none, some, ◌==◌, find, insert,
  arith, eq_iff,
}
use dodo_payment_gateway.Base.Int.{ℤ, pos, ltb_ℤ}
use dodo_payment_gateway.Base.Trim.{trim_space, map_text}
use dodo_payment_gateway.Model.{Customer, Invoice, draft}
use dodo_payment_gateway.Errors.{Error, Result, ok}
use dodo_payment_gateway.Store.{Db, World, pure, raise, try, asks, new_uuid, statement, or_no_rows}
use dodo_payment_gateway.Store.Laws.{asks-ok, bind_elim, statement-ok, new_uuid-ok}
use dodo_payment_gateway.Repository.Businesses
use dodo_payment_gateway.Repository.Customers
use dodo_payment_gateway.Repository.Invoices
use dodo_payment_gateway.Payment.Guards.{return_or, raise_if-ok}
use dodo_payment_gateway.Accounts.{create_invoice, create_checked_invoice, draft_invoice}

-- `v` is a new row of `d'`, for the customer `customer` of the business.
pub record Invoiced (business_id customer_id currency : String) (amount : ℤ) (d d' : Db)
    (v : Invoice) : Type 0 where
  pub customer : Customer
  pub customer_row : find (Customers.has_id customer_id) d.customers ≡ some customer
  pub owner : customer.business_id ≡ business_id
  pub terms :
      (v.business_id ≡ business_id)
      × (v.customer_id ≡ customer_id)
      × (v.currency ≡ currency)
      × (v.amount ≡ amount)
      × (v.status ≡ draft)
  pub fresh : find (Invoices.has_id v.id) d.invoices ≡ none
  pub added : d'.invoices ≡ insert v d.invoices

exists_business-ok :
    (business_id : String) (w : World) {x : Bool} {u : World}
    → Businesses.exists business_id w ≡ (ok x, u)
    → u.db ≡ w.db
unfolding Businesses.exists statement
exists_business-ok business_id w e = ground arith

customer-ok :
    (f : Error → Error) (customer_id : String) (w : World) {r : Result Customer} {c : Customer}
    {u v : World}
    → try (Customers.get_by_id customer_id) w ≡ (ok r, u)
    → return_or f r u ≡ (ok c, v)
    → (find (Customers.has_id customer_id) w.db.customers ≡ some c) × (v.db ≡ w.db)
unfolding Customers.get_by_id try statement or_no_rows return_or pure raise
customer-ok f customer_id w e h = (ground arith, ground arith)

create-ok :
    (v : Invoice) (w : World) {r : Invoice} {u : World}
    → Invoices.create v w ≡ (ok r, u)
    → (n : ℕ) × (r ≡ record v { created_at = n; updated_at = n })
      × (find (Invoices.has_id v.id) w.db.invoices ≡ none)
      × (u.db.invoices ≡ insert r w.db.invoices)
unfolding Invoices.create
create-ok v w e =
    let done = statement-ok _ w e in (w.env.clock w.tick, ground arith, ground arith, ground arith)

checked-Invoiced :
    (business_id customer_id currency : String) (amount : ℤ) (w : World) {v : Invoice} {w' : World}
    → create_checked_invoice business_id customer_id currency amount w ≡ (ok v, w')
    → Invoiced business_id customer_id currency amount w.db w'.db v
unfolding create_checked_invoice
checked-Invoiced business_id customer_id currency amount w {v} {w'} h =
    bind_elim (Businesses.exists business_id) _ w h λ x u1 read h1.
      bind_elim _ _ u1 h1 λ _ u2 there h2.
        bind_elim (try (Customers.get_by_id customer_id)) _ u2 h2 λ r u3 got h3.
          bind_elim _ _ u3 h3 λ customer u4 found h4. bind_elim _ _ u4 h4 λ _ u5 owned h5.
            bind_elim new_uuid _ u5 h5 λ id u6 made created.
              let (row, same) = customer-ok _ customer_id u2 got found in
              let (n, shape, fresh, put) =
                create-ok (draft_invoice id business_id customer_id currency amount) u6 created in
              let rows = exists_business-ok business_id w read in
              let owner = raise_if-ok _ _ u4 owned in
              let start = ap (λ (x : World). x.db) (sym (raise_if-ok _ _ u1 there).1) ∙ rows in
              let end =
                (new_uuid-ok u5 made).1 ∙ ap (λ (x : World). x.db) (sym owner.1) ∙ same ∙ start in
              record {
                customer = customer;
                customer_row =
                    sym (ap (λ (d : Db). find (Customers.has_id customer_id) d.customers) start)
                    ∙ row;
                owner = ground (arith, owner.0, eq_iff customer.business_id business_id);
                terms = (
                  ap (λ (x : Invoice). x.business_id) shape,
                  ap (λ (x : Invoice). x.customer_id) shape,
                  ap (λ (x : Invoice). x.currency) shape,
                  ap (λ (x : Invoice). x.amount) shape,
                  ap (λ (x : Invoice). x.status) shape,
                );
                fresh =
                    ap (λ (x : Invoice). find (Invoices.has_id x.id) w.db.invoices) shape
                    ∙ sym (ap (λ (d : Db). find (Invoices.has_id id) d.invoices) end)
                    ∙ fresh;
                added = put ∙ ap (λ (d : Db). insert v d.invoices) end;
              }

unnegated : (b : Bool) → not b ≡ false → b ≡ true
unnegated true h = refl
unnegated false h = cc h

-- A currency without the spaces around it, in upper case.
abbrev pub normal : World → String → String
normal w currency = map_text w.env.to_upper (trim_space w.env.is_space currency)

-- An invoice that CreateInvoice returns is a new row of the table: a draft, for a positive amount, in
-- the currency that was asked for, trimmed, in upper case and not empty, and for a customer that
-- belongs to the business.
pub create_invoice-Invoiced :
    (business_id customer_id currency : String) (amount : ℤ) (w : World) {v : Invoice} {w' : World}
    → create_invoice business_id customer_id currency amount w ≡ (ok v, w')
    → (ltb_ℤ (pos 0) v.amount ≡ true)
      × ((v.currency == "") ≡ false)
      × Invoiced business_id customer_id (normal w currency) amount w.db w'.db v
unfolding create_invoice
create_invoice-Invoiced business_id customer_id currency amount w {v} {w'} h =
    bind_elim _ _ w h λ _ u1 positive h1. bind_elim (asks _) _ u1 h1 λ normalized u2 asked h2.
      bind_elim _ _ u2 h2 λ _ u3 named checked.
        let first = raise_if-ok _ _ w positive in
        let ask = asks-ok _ u1 asked in
        let last = raise_if-ok _ _ u2 named in
        let back = sym last.1 ∙ sym ask.1 ∙ sym first.1 in
        let same = sym ask.0 ∙ ap (λ (x : World). normal x currency) (sym first.1) in
        let new = checked-Invoiced business_id customer_id normalized amount u3 checked in
        (
          ap (ltb_ℤ (pos 0)) new.terms.3 ∙ unnegated _ first.0,
          ap (λ x. x == "") new.terms.2 ∙ last.0,
          subst (λ x. Invoiced business_id customer_id x amount w.db w'.db v) same
              (subst
                (λ (x : World). Invoiced business_id customer_id normalized amount x.db w'.db v)
                back new),
        )
