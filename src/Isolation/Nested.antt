-- ===== src/Isolation/Nested.antt =====
-- packages/database/src/tenant-guard.ts: the stamp on created rows and on the rows created inside them.
-- The recursion is limited as in the source: `levels` counts down from 3 where `depth` counts up. An
-- array in the place of a row has no counterpart.
pub mod Rows
pub mod Inside
pub mod Stamped
use muzael.Common.{
  ℕ, zero, suc, Bool, true, false, not, ◌&&◌, Option, none, some, List, [], ◌∷◌, ◌==◌,
  if◌then◌else◌,
}
use muzael.Isolation.Values.{
  Value, null, text, scalar, array, object, Items, no_items, item, Fields, no_fields, field, id_key,
  create_key, create_many_key, connect_or_create_key, upsert_key, data_key, Schema, tenant_key_for,
  is_scoped, get, put, cross_tenant_write, Checked, refused, passed, ◌>>=◌,
}

-- `supplied !== undefined && supplied !== null && supplied !== tenantId`.
abbrev pub names_other : ℕ → Option Value → Bool
names_other tenant none = false
names_other tenant (some null) = false
names_other tenant (some (text t)) = not (t == tenant)
names_other tenant (some (scalar n)) = true
names_other tenant (some (array xs)) = true
names_other tenant (some (object fs)) = true

unfoldable pub stamp_row : ℕ → ℕ → Fields → Checked Fields
stamp_row key tenant row =
    if names_other tenant (get key row)
    then refused cross_tenant_write
    else passed (put key (text tenant) row)

-- The rows of a payload, each stamped and then what is nested in it.
unfoldable pub stamp_items : (Fields → Checked Fields) → Items → Checked Items
stamp_items stamp no_items = passed no_items
stamp_items stamp (item (object row) rest) = do
  stamped ← stamp row
  others ← stamp_items stamp rest
  passed (item (object stamped) others)
stamp_items stamp (item v rest) = do others ← stamp_items stamp rest; passed (item v others)

-- One payload under `create`, `connectOrCreate` or `upsert`.
abbrev pub stamp_payload : (Fields → Checked Fields) → Value → Checked Value
stamp_payload stamp (array rows) = stamp_items stamp rows >>= λ xs. passed (array xs)
stamp_payload stamp (object row) = stamp row >>= λ r. passed (object r)
stamp_payload stamp v = passed v

-- The payload under `createMany`, whose rows stand under `data` and are not searched further.
abbrev pub stamp_data :
    (Fields → Checked Fields) → (Fields → Checked Fields) → Fields → Option Value → Checked Value
stamp_data shallow stamp payload (some (array rows)) =
    stamp_items shallow rows >>= λ xs. passed (object (put data_key (array xs) payload))
stamp_data shallow stamp payload _ = stamp payload >>= λ r. passed (object r)

abbrev pub stamp_create_many :
    (Fields → Checked Fields) → (Fields → Checked Fields) → Value → Checked Value
stamp_create_many shallow stamp (object payload) =
    stamp_data shallow stamp payload (get data_key payload)
stamp_create_many shallow stamp v = stamp_payload stamp v

-- `NESTED_CREATE_KEYS`.
abbrev pub stamp_entry :
    (Fields → Checked Fields) → (Fields → Checked Fields) → ℕ → Value → Checked Value
stamp_entry shallow stamp key v =
    if key == create_many_key
    then stamp_create_many shallow stamp v
    else if key == create_key
    then stamp_payload stamp v
    else if key == connect_or_create_key
    then stamp_payload stamp v
    else if key == upsert_key
    then stamp_payload stamp v
    else passed v

unfoldable pub stamp_entries :
    (Fields → Checked Fields) → (Fields → Checked Fields) → Fields → Checked Fields
stamp_entries shallow stamp no_fields = passed no_fields
stamp_entries shallow stamp (field key v rest) = do
  w ← stamp_entry shallow stamp key v
  others ← stamp_entries shallow stamp rest
  passed (field key w others)

-- The model that a field's rows belong to, where these are to be stamped.
abbrev pub scoped_target : Schema → Option ℕ → Option ℕ
scoped_target schema none = none
scoped_target schema (some related) =
    if is_scoped schema related && not (tenant_key_for related == id_key)
    then some related
    else none

abbrev pub stamp_field :
    (ℕ → Fields → Checked Fields) → (ℕ → Fields → Checked Fields) → Option ℕ → Value → Checked Value
stamp_field shallow stamp (some related) (object nested) =
    stamp_entries (shallow related) (stamp related) nested >>= λ fs. passed (object fs)
stamp_field shallow stamp _ v = passed v

unfoldable pub stamp_fields :
    (ℕ → Fields → Checked Fields)
    → (ℕ → Fields → Checked Fields)
    → Schema
    → ℕ
    → Fields
    → Checked Fields
stamp_fields shallow stamp schema model no_fields = passed no_fields
stamp_fields shallow stamp schema model (field key v rest) = do
  w ← stamp_field shallow stamp (scoped_target schema (schema.relation model key)) v
  others ← stamp_fields shallow stamp schema model rest
  passed (field key w others)

abbrev pub stamp_related : ℕ → ℕ → Fields → Checked Fields
stamp_related tenant related row = stamp_row (tenant_key_for related) tenant row

unfoldable pub stamp_nested_creates : ℕ → Schema → ℕ → ℕ → Fields → Checked Fields
stamp_nested_creates zero schema tenant model data_ = passed data_
stamp_nested_creates (suc levels) schema tenant model data_ =
    stamp_fields (stamp_related tenant)
      (λ related row.
        stamp_related tenant related row >>= stamp_nested_creates levels schema tenant related)
      schema model data_

unfoldable pub assert_tenant_on_data : Schema → ℕ → ℕ → ℕ → Fields → Checked Fields
assert_tenant_on_data schema tenant model key row =
    let nested = stamp_nested_creates 3 schema tenant model in
    let own = stamp_row key tenant row >>= nested in if key == id_key then nested row else own
