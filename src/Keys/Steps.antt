-- ===== src/Keys/Steps.antt =====
-- Any number of calls of the key service and of the middleware at once, as the database sees them:
-- their statements, in any order, with any answers.
use dodo_payment_gateway.Base.{ℕ, String}
use dodo_payment_gateway.Model.{ApiKey}
use dodo_payment_gateway.Store.{World}
use dodo_payment_gateway.Repository.ApiKeys

pub data Steps : World → World → Type 0 where
  starts : (w : World) → Steps w w
  -- time passes, or rows are read
  waits : {w v : World} → Steps w v → (n : ℕ) → Steps w (record v { tick = n })
  creates : {w v : World} → Steps w v → (k : ApiKey) → Steps w (ApiKeys.create k v).1
  revokes : {w v : World} → Steps w v → (id : String) (at : ℕ) → Steps w (ApiKeys.revoke id at v).1
  touches :
      {w v : World}
      → Steps w v
      → (id : String) (at : ℕ) → Steps w (ApiKeys.touch_last_used id at v).1
