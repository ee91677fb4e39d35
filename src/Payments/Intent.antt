-- ===== src/Payments/Intent.antt =====
-- packages/payments/src/provider.ts: the intents that a provider's callback is normalized to, and the
-- states of a payment (apps/api/src/modules/payments/payments.service.ts, prisma's `PaymentState`).
-- Ids and external ids are numbers and texts; an instant is a number of milliseconds.
use Prim.Native.String.{String}
use muzael.Common.{ℕ, Bool, Option, none, some, List, [], ◌∷◌, any, ◌==◌}

pub data NormalizedIntent : Type 0 where
  mark_paid : String → ℕ → ℕ → NormalizedIntent
  mark_failed : Option String → String → NormalizedIntent
  mark_cancelled : Option String → String → NormalizedIntent
  mark_refunded : String → ℕ → NormalizedIntent
  noop : String → NormalizedIntent

pub data PaymentState : Type 0 where
  pending processing paid failed cancelled expired refunded partially_refunded : PaymentState

-- The strings that the source compares differ exactly where these numbers do.
abbrev pub code : PaymentState → ℕ
code pending = 0
code processing = 1
code paid = 2
code failed = 3
code cancelled = 4
code expired = 5
code refunded = 6
code partially_refunded = 7

abbrev pub same_state : PaymentState → PaymentState → Bool
same_state a b = code a == code b

abbrev pub allowed_transitions : PaymentState → List PaymentState
allowed_transitions pending = processing ∷ paid ∷ failed ∷ cancelled ∷ expired ∷ []
allowed_transitions processing = paid ∷ failed ∷ cancelled ∷ expired ∷ []
allowed_transitions paid = refunded ∷ partially_refunded ∷ []
allowed_transitions partially_refunded = refunded ∷ []
allowed_transitions failed = []
allowed_transitions cancelled = []
allowed_transitions expired = []
allowed_transitions refunded = []

unfoldable pub allows : PaymentState → PaymentState → Bool
allows from to = any (λ s. same_state s to) (allowed_transitions from)

-- `stateFor`.
abbrev pub state_for : NormalizedIntent → Option PaymentState
state_for (mark_paid _ _ _) = some paid
state_for (mark_failed _ _) = some failed
state_for (mark_cancelled _ _) = some cancelled
state_for (mark_refunded _ _) = some refunded
state_for (noop _) = none
