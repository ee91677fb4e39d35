-- ===== src/Shared/Errors.antt =====
-- packages/shared/src/errors.ts: the error codes, their HTTP status, and the results that carry
-- them. A `DomainError` is its code; the message and the details only reach logs and bodies.
use muzael.Common.{ℕ, ◌≡◌, refl, Bool, true, false}

pub data ErrorCode : Type 0 where
  internal validation_failed not_found conflict rate_limited stale_write : ErrorCode
  unauthenticated invalid_credentials token_expired token_invalid : ErrorCode
  refresh_token_reused email_already_registered account_locked forbidden not_a_member : ErrorCode
  missing_tenant_context cross_tenant_access tenant_suspended module_disabled : ErrorCode
  module_dependency_missing module_has_dependents module_is_core module_not_available : ErrorCode
  upgrade_required last_owner product_unavailable insufficient_stock : ErrorCode
  modifier_selection_invalid cart_empty order_not_modifiable : ErrorCode
  invalid_status_transition minimum_order_not_met delivery_zone_unsupported : ErrorCode
  idempotency_key_reused promo_not_found promo_expired promo_usage_exceeded : ErrorCode
  promo_not_applicable insufficient_loyalty_balance booking_slot_taken : ErrorCode
  booking_outside_working_hours booking_too_soon booking_too_far : ErrorCode
  booking_not_cancellable resource_unavailable payment_provider_unavailable : ErrorCode
  payment_amount_mismatch payment_already_finalized payment_not_found payment_failed : ErrorCode
  webhook_signature_invalid telegram_signature_invalid telegram_initdata_expired : ErrorCode
  telegram_bot_token_invalid telegram_bot_already_connected : ErrorCode

-- `ERROR_HTTP_STATUS`.
unfoldable pub http_status : ErrorCode → ℕ
http_status internal = 500
http_status validation_failed = 422
http_status not_found = 404
http_status conflict = 409
http_status rate_limited = 429
http_status stale_write = 409
http_status unauthenticated = 401
http_status invalid_credentials = 401
http_status token_expired = 401
http_status token_invalid = 401
http_status refresh_token_reused = 401
http_status email_already_registered = 409
http_status account_locked = 423
http_status forbidden = 403
http_status not_a_member = 403
http_status missing_tenant_context = 500
http_status cross_tenant_access = 403
http_status tenant_suspended = 403
http_status module_disabled = 403
http_status module_dependency_missing = 422
http_status module_has_dependents = 409
http_status module_is_core = 409
http_status module_not_available = 409
http_status upgrade_required = 402
http_status last_owner = 409
http_status product_unavailable = 409
http_status insufficient_stock = 409
http_status modifier_selection_invalid = 422
http_status cart_empty = 409
http_status order_not_modifiable = 409
http_status invalid_status_transition = 409
http_status minimum_order_not_met = 422
http_status delivery_zone_unsupported = 422
http_status idempotency_key_reused = 409
http_status promo_not_found = 404
http_status promo_expired = 409
http_status promo_usage_exceeded = 409
http_status promo_not_applicable = 422
http_status insufficient_loyalty_balance = 409
http_status booking_slot_taken = 409
http_status booking_outside_working_hours = 422
http_status booking_too_soon = 422
http_status booking_too_far = 422
http_status booking_not_cancellable = 409
http_status resource_unavailable = 409
http_status payment_provider_unavailable = 503
http_status payment_amount_mismatch = 409
http_status payment_already_finalized = 409
http_status payment_not_found = 404
http_status payment_failed = 402
http_status webhook_signature_invalid = 401
http_status telegram_signature_invalid = 401
http_status telegram_initdata_expired = 401
http_status telegram_bot_token_invalid = 422
http_status telegram_bot_already_connected = 409

-- A computation that returns or throws a `DomainError`.
pub data Result {ℓ} (A : Type ℓ) : Type ℓ where
  err : ErrorCode → Result A
  ok : A → Result A

-- `if (c) throw new DomainError(e)`.
abbrev pub throw_if : Bool → ErrorCode → Result (Unit {0})
throw_if false code = ok tt
throw_if true code = err code

infixl 5 ◌>>=◌ ◌>>◌
abbrev pub ◌>>=◌ {ℓ κ} : {S : Type ℓ} {T : Type κ} → Result S → (S → Result T) → Result T
err thrown >>= rest = err thrown
ok value >>= rest = rest value

abbrev pub ◌>>◌ {ℓ} : {T : Type ℓ} → Result (Unit {0}) → Result T → Result T
check >> rest = check >>= λ _. rest

-- What a bind that returned came through.
pub >>=-eq-ok {ℓ κ} :
    {S : Type ℓ} {T : Type κ} (first : Result S) (rest : S → Result T) {end : T}
    → (first >>= rest) ≡ ok end
    → (value : S) × (first ≡ ok value) × (rest value ≡ ok end)
>>=-eq-ok (err thrown) rest returned = cc
>>=-eq-ok (ok value) rest returned = (value, refl, returned)

-- What a guard that let the computation pass came through.
pub throw_if-eq-ok {ℓ} :
    {T : Type ℓ} (c : Bool) (code : ErrorCode) (rest : Result T) {end : T}
    → (throw_if c code >>= λ _. rest) ≡ ok end
    → (c ≡ false) × (rest ≡ ok end)
throw_if-eq-ok false code rest returned = (refl, returned)
throw_if-eq-ok true code rest returned = cc
