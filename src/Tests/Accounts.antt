-- ===== src/Tests/Accounts.antt =====
-- Invoices, endpoints and events of a business on concrete data.
use dodo_payment_gateway.Base.{◌≡◌, refl, true, false, none, some, [], ◌∷◌, ◌==◌, find, update}
use dodo_payment_gateway.Base.Int.{pos, ltb_ℤ}
use dodo_payment_gateway.Base.Trim
use dodo_payment_gateway.Base.Trim.{trim_space}
use dodo_payment_gateway.Model.{Business, Invoice, draft, OutboundEvent, OutboundEventStatus}
use dodo_payment_gateway.Errors.{ok}
use dodo_payment_gateway.Store.{World, ◌>>=◌}
use dodo_payment_gateway.Store
use dodo_payment_gateway.Repository.Businesses
use dodo_payment_gateway.Repository.Customers
use dodo_payment_gateway.Repository.Invoices
use dodo_payment_gateway.Repository.OutboundEvents
use dodo_payment_gateway.Payment.Guards
use dodo_payment_gateway.Accounts
use dodo_payment_gateway.Accounts.{create_invoice}
use dodo_payment_gateway.Accounts.Invoicing.{Invoiced, normal, create_invoice-Invoiced}
use dodo_payment_gateway.Endpoints
use dodo_payment_gateway.Endpoints.{set_endpoint, list_events, redeliver, page_limit}
use dodo_payment_gateway.Endpoints.Address.{Addressed, set_endpoint-Addressed}
use dodo_payment_gateway.Endpoints.Redelivery.{Redelivered, redeliver-ok}
use dodo_payment_gateway.Tests.{before, open_invoice, business, failed_event}

abbrev new_invoice : Invoice
new_invoice = record open_invoice { id = "a"; status = draft }

abbrev invoiced : World
invoiced = record before {
  tick = 4;
  db = record before.db { invoices = open_invoice ∷ new_invoice ∷ [] };
}

created_invoice-ok : create_invoice "b" "c" " USD " (pos 100) before ≡ (ok new_invoice, invoiced)
unfolding create_invoice Accounts.create_checked_invoice ◌>>=◌ find Store.statement Store.or_no_rows
    Store.new_uuid Store.asks Store.try Guards.return_or Guards.raise_if Trim.trim_space
    Trim.trim_left Trim.trim_right Trim.map_text Businesses.exists Businesses.exists_query
    Customers.get_by_id Customers.select_query Invoices.create Invoices.insert_query
    Invoices.is_insertable
created_invoice-ok = refl

create_invoice-Invoiced_example :
    (ltb_ℤ (pos 0) (pos 100) ≡ true)
    × (("USD" == "") ≡ false)
    × Invoiced "b" "c" (normal before " USD ") (pos 100) before.db invoiced.db new_invoice
create_invoice-Invoiced_example =
    create_invoice-Invoiced "b" "c" " USD " (pos 100) before created_invoice-ok

abbrev addressed : Business
addressed = record business { webhook_url = some "https://acme.test" }

abbrev with_endpoint : World
with_endpoint = record before { tick = 2; db = record before.db { businesses = addressed ∷ [] } }

addressed-ok : set_endpoint "b" " https://acme.test" before ≡ (ok addressed, with_endpoint)
unfolding set_endpoint Endpoints.set_trimmed_endpoint Endpoints.secret_or_new ◌>>=◌ find update
    Store.statement Store.or_no_rows Store.asks Guards.raise_if Trim.trim_space Trim.trim_left
    Trim.trim_right Businesses.get_by_id Businesses.select_query Businesses.update_webhook_endpoint
    Businesses.update_endpoint_query
addressed-ok = refl

set_endpoint-Addressed_example :
    ((trim_space before.env.is_space " https://acme.test" == "") ≡ false)
    × (b : Business) × Addressed "b"
        (trim_space before.env.is_space " https://acme.test")
        b
        addressed
        before.db
        with_endpoint.db
set_endpoint-Addressed_example = set_endpoint-Addressed "b" " https://acme.test" before addressed-ok

abbrev with_event : World
with_event = record before { db = record before.db { outbound_events = failed_event ∷ [] } }

abbrev reset_event : OutboundEvent
reset_event = record failed_event {
  status = OutboundEventStatus.pending;
  attempt_count = 0;
  last_error = none;
}

abbrev redelivered : World
redelivered = record before {
  tick = 4;
  db = record before.db { outbound_events = reset_event ∷ [] };
}

redelivered-ok : redeliver "b" "event" with_event ≡ (ok reset_event, redelivered)
unfolding redeliver Endpoints.get_event Endpoints.check_event_owner ◌>>=◌ find update
    Store.statement Store.or_no_rows Store.time_now Store.try Guards.return_or
    OutboundEvents.get_by_id OutboundEvents.select_query OutboundEvents.reset_for_redelivery
    OutboundEvents.change_query
redelivered-ok = refl

redeliver-ok_example : Redelivered "b" "event" with_event reset_event redelivered
redeliver-ok_example = redeliver-ok "b" "event" with_event redelivered-ok
