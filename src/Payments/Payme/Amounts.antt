-- ===== src/Payments/Payme/Amounts.antt =====
-- packages/payments/src/providers/payme.ts: what the conversion from tiyin accepts, and what a cancel
-- does to a payment that is paid.
use muzael.Common.{ℕ, ◌+◌, ◌*◌, ◌≤◌, ◌<◌, ◌≡◌, ◌↔◌, none, some, arith}
use muzael.Payments.Service.{Payment, mismatches}
use muzael.Payments.Payme.{perform_transaction, PaymeRpc, handle, tiyin_per_som}

-- A PerformTransaction of a number of tiyin is taken for the full amount of a payment exactly if it is
-- the amount in tiyin, give or take half a so'm.
pub perform-accepts_iff :
    (now tiyin : ℕ) (rpc : PaymeRpc) (p : Payment)
    → rpc.method ≡ perform_transaction
    → rpc.params.amount ≡ some tiyin
    → (mismatches (handle now rpc).intent p ≡ none)
      ↔ ((tiyin_per_som * p.amount ≤ tiyin + 50) × (tiyin < tiyin_per_som * p.amount + 50))
unfolding handle
perform-accepts_iff now tiyin rpc p m a = rw (m, a) (ground arith)
