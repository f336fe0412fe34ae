-- ===== src/Tests/Routes.antt =====
-- A route on concrete data.
use dodo_payment_gateway.Base.{◌≡◌, refl, String, some, find}
use dodo_payment_gateway.Model.{ApiKey}
use dodo_payment_gateway.Errors.{ok}
use dodo_payment_gateway.Store.{World, ◌>>=◌}
use dodo_payment_gateway.Store
use dodo_payment_gateway.Repository.ApiKeys
use dodo_payment_gateway.Repository.Invoices
use dodo_payment_gateway.Payment.Guards
use dodo_payment_gateway.Accounts
use dodo_payment_gateway.Auth
use dodo_payment_gateway.Handlers
use dodo_payment_gateway.Handlers.{Answer}
use dodo_payment_gateway.Handlers.Invoices.{get_invoice}
use dodo_payment_gateway.Handlers.Routes
use dodo_payment_gateway.Handlers.Routes.{with_api_key}
use dodo_payment_gateway.Handlers.Access.{Admitted, with_api_key-sent}
use dodo_payment_gateway.Tests.{open_invoice}
use dodo_payment_gateway.Tests.Keys.{with_key}

abbrev auth_header : String
auth_header = "Bearer dodo_live_0123456789abcdef"

sent-ok :
    with_api_key auth_header (get_invoice "i") with_key
    ≡ (ok (Answer.sent 200 open_invoice), record with_key { tick = 2 })
unfolding with_api_key Routes.go_on get_invoice Handlers.require_business_id Handlers.answer
    Auth.api_key_auth Auth.authenticate_api_key Auth.authenticate_with Auth.bearer Auth.split_space
    Accounts.get_invoice Accounts.check_invoice_owner ◌>>=◌ find Store.statement Store.or_no_rows
    Store.try Store.asks Guards.return_or ApiKeys.get_by_hash ApiKeys.select_active_query
    Invoices.get_by_id Invoices.select_query
sent-ok = refl

with_api_key-sent_example :
    (key : ApiKey) × (u : World) × Admitted auth_header key with_key u
    × (get_invoice "i" (some key.business_id) u
        ≡ (ok (Answer.sent 200 open_invoice), record with_key { tick = 2 }))
with_api_key-sent_example = with_api_key-sent auth_header (get_invoice "i") with_key sent-ok
