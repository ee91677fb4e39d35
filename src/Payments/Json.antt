-- ===== src/Payments/Json.antt =====
-- packages/payments/src/provider.ts: the bodies that are answered to a provider.
use muzael.Common.{Bool}
use muzael.Common.Int.{ℤ}
use Prim.Native.String.{String}

mutual
  pub data Json : Type 0 where
    null : Json
    num : ℤ → Json
    bool : Bool → Json
    str : String → Json
    obj : Fields → Json

  pub data Fields : Type 0 where
    end : Fields
    field : String → Json → Fields → Fields
