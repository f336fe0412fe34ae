-- ===== src/Payment/Guards.antt =====
-- The small checks of internal/service/payment_service.go, and its `if err != nil` forms.
use Prim.Native.String.{◌++◌}
use dodo_payment_gateway.Base.{◌≡◌, String, Bool, true, false, Option, none, some, arith}
use dodo_payment_gateway.Model.{InvoiceStatus, draft, open_status, paid, void, uncollectible}
use dodo_payment_gateway.Errors.{
  Error, Result, ok, err, invoice_already_paid, invoice_void, invoice_uncollectible,
}
use dodo_payment_gateway.Store.{World, M, pure, raise, asks}

unfoldable pub hash_pay_request : String → String → M String
hash_pay_request invoice_id card_token =
    asks (λ env. env.sha256_hex (invoice_id ++ "\n" ++ card_token))

unfoldable pub payable_invoice : InvoiceStatus → Option Error
payable_invoice draft = none
payable_invoice open_status = none
payable_invoice paid = some invoice_already_paid
payable_invoice void = some invoice_void
payable_invoice uncollectible = some invoice_uncollectible
payable_invoice _ = some invoice_void

-- `if err != nil { return err }`
unfoldable pub raise_some : Option Error → M (Unit {0})
raise_some none = pure tt
raise_some (some e) = raise e

unfoldable pub raise_if : Bool → Error → M (Unit {0})
raise_if true e = raise e
raise_if false e = pure tt

-- An error handed back by `try`, as another one.
unfoldable pub return_or : {A : Type 0} → (Error → Error) → Result A → M A
return_or f (ok a) = pure a
return_or f (err e) = raise (f e)

-- A check that passes changes nothing.
pub raise_if-ok :
    (b : Bool) (e : Error) (w : World) {u : World}
    → raise_if b e w ≡ (ok tt, u)
    → (b ≡ false) × (w ≡ u)
unfolding raise_if pure raise
raise_if-ok true e w h = cc
raise_if-ok false e w h = ground arith
