-- ===== src/Isolation/Values.antt =====
-- packages/database/src/tenant-guard.ts: the arguments of a query, the schema that the guard reads, and
-- what the guard throws. Names of models, fields and tenants are numbers that differ where the texts do;
-- a field whose value is undefined is one that is missing.
use muzael.Common.{
  ℕ, ◌≡◌, refl, Bool, ◌||◌, not, ◌&&◌, Option, none, some, List, contains, ◌==◌, if◌then◌else◌,
}

mutual
  pub data Value : Type 0 where
    null : Value
    text : ℕ → Value
    scalar : ℕ → Value
    array : Items → Value
    object : Fields → Value

  pub data Items : Type 0 where
    no_items : Items
    item : Value → Items → Items

  pub data Fields : Type 0 where
    no_fields : Fields
    field : ℕ → Value → Fields → Fields

abbrev pub id_key : ℕ
id_key = 0

abbrev pub tenant_id_key : ℕ
tenant_id_key = 1

abbrev pub and_key : ℕ
and_key = 2

abbrev pub create_key : ℕ
create_key = 3

abbrev pub create_many_key : ℕ
create_many_key = 4

abbrev pub connect_or_create_key : ℕ
connect_or_create_key = 5

abbrev pub upsert_key : ℕ
upsert_key = 6

abbrev pub data_key : ℕ
data_key = 7

abbrev pub tenant_model : ℕ
tenant_model = 0

abbrev pub processed_webhook_model : ℕ
processed_webhook_model = 1

-- `Prisma.dmmf.datamodel`: the fields of each model, and of those that are relations the model they lead
-- to. It is generated, so it is a parameter wherever it is used.
pub record Schema : Type 0 where
  pub models : List ℕ
  pub fields : ℕ → List ℕ
  pub relation : ℕ → ℕ → Option ℕ

abbrev pub tenant_key_for : ℕ → ℕ
tenant_key_for model = if model == tenant_model then id_key else tenant_id_key

-- `buildScopedModelSet().has(model)`.
unfoldable pub is_scoped : Schema → ℕ → Bool
is_scoped schema model =
    contains schema.models model
      && not (model == processed_webhook_model)
      && contains (schema.fields model) (tenant_key_for model)
    || model == tenant_model

-- `value[key]`, where it is there.
unfoldable pub get : ℕ → Fields → Option Value
get key no_fields = none
get key (field k v fs) = if k == key then some v else get key fs

-- `{ ...fields, [key]: value }`: a key that is there keeps its place.
unfoldable pub put : ℕ → Value → Fields → Fields
put key v no_fields = field key v no_fields
put key v (field k w fs) =
    let rest = put key v fs in if k == key then field k v fs else field k w rest

-- `CrossTenantWriteError`, `MissingTenantContextError` and `RecordNotFoundError`.
pub data GuardError : Type 0 where
  cross_tenant_write missing_tenant_context record_not_found : GuardError

pub data Checked {ℓ} (A : Type ℓ) : Type ℓ where
  refused : GuardError → Checked A
  passed : A → Checked A

infixl 5 ◌>>=◌
abbrev pub ◌>>=◌ {ℓ κ} : {A : Type ℓ} {B : Type κ} → Checked A → (A → Checked B) → Checked B
refused e >>= next = refused e
passed a >>= next = next a

-- What a bind that passed came through.
pub >>=-eq-passed {ℓ κ} :
    {A : Type ℓ} {B : Type κ} (m : Checked A) (next : A → Checked B) {b : B}
    → (m >>= next) ≡ passed b
    → (a : A) × (m ≡ passed a) × (next a ≡ passed b)
>>=-eq-passed (refused e) next h = cc
>>=-eq-passed (passed a) next h = (a, refl, h)
