-- ===== src/Isolation/Guard.antt =====
-- packages/database/src/tenant-guard.ts: the rewriting of each operation. The query itself, which the
-- guard passes the arguments to, belongs to the database client.
pub mod Created
pub mod Scope
mod Tests
use muzael.Common.{
  ℕ, zero, suc, Bool, true, false, not, ◌&&◌, ◌||◌, Option, none, some, List, [], ◌∷◌, ◌==◌,
  if◌then◌else◌,
}
use muzael.Isolation.Values.{
  Value, null, text, scalar, array, object, Items, no_items, item, Fields, no_fields, field,
  tenant_id_key, and_key, Schema, tenant_key_for, is_scoped, get, put, GuardError,
  cross_tenant_write, missing_tenant_context, record_not_found, Checked, refused, passed, ◌>>=◌,
}
use muzael.Isolation.Nested.{assert_tenant_on_data}

pub data Operation : Type 0 where
  find_many find_first find_first_or_throw count aggregate group_by : Operation
  find_unique find_unique_or_throw : Operation
  update delete upsert : Operation
  update_many delete_many update_many_and_return : Operation
  create create_many create_many_and_return : Operation
  other : Operation

-- The sets of operations of the guard.
pub data Kind : Type 0 where
  read unique_read unique_write bulk_write creation unknown : Kind

abbrev pub kind : Operation → Kind
kind Operation.find_many = read
kind Operation.find_first = read
kind Operation.find_first_or_throw = read
kind Operation.count = read
kind Operation.aggregate = read
kind Operation.group_by = read
kind Operation.find_unique = unique_read
kind Operation.find_unique_or_throw = unique_read
kind Operation.update = unique_write
kind Operation.delete = unique_write
kind Operation.upsert = unique_write
kind Operation.update_many = bulk_write
kind Operation.delete_many = bulk_write
kind Operation.update_many_and_return = bulk_write
kind Operation.create = creation
kind Operation.create_many = creation
kind Operation.create_many_and_return = creation
kind Operation.other = unknown

-- `data`: missing, one row, or several.
pub data RowData : Type 0 where
  no_data : RowData
  one : Fields → RowData
  several : List Fields → RowData

-- The arguments that the guard reads. A missing `where` is an empty one.
pub record Arguments : Type 0 where
  pub filter : Fields
  pub rows : RowData
  pub create_row : Option Fields

pub data ContextValue : Type 0 where
  tenant_context : ℕ → ContextValue
  system_context : ContextValue

-- A query with rewritten arguments, the null of a unique read that names another tenant, or an error.
pub data Guarded : Type 0 where
  run : Arguments → Guarded
  found_nothing : Guarded
  thrown : GuardError → Guarded

abbrev pub names_tenant : ℕ → Option Value → Bool
names_tenant tenant (some (text t)) = not (t == tenant)
names_tenant tenant _ = false

-- The search of `assertWhereTenant` below a key, four levels deep; arrays are not entered.
unfoldable mutual
  pub names_foreign : ℕ → ℕ → Fields → Bool
  names_foreign tenant zero fs = false
  names_foreign tenant (suc levels) no_fields = false
  names_foreign tenant (suc levels) (field key v rest) =
      (key == tenant_id_key && names_tenant tenant (some v))
      || names_below tenant levels v
      || names_foreign tenant (suc levels) rest

  pub names_below : ℕ → ℕ → Value → Bool
  names_below tenant levels (object fs) = names_foreign tenant levels fs
  names_below tenant levels _ = false

abbrev pub assert_where_tenant : ℕ → ℕ → Fields → Bool
assert_where_tenant key tenant filter =
    not (names_tenant tenant (get key filter) || names_foreign tenant 4 filter)

abbrev pub with_tenant_unique_where : ℕ → ℕ → Fields → Fields
with_tenant_unique_where key tenant filter = put key (text tenant) filter

abbrev pub with_tenant_where : ℕ → ℕ → Fields → Fields
with_tenant_where key tenant no_fields = field key (text tenant) no_fields
with_tenant_where key tenant (field k v fs) =
    field and_key
      (array
        (item (object (field key (text tenant) no_fields)) (item (object (field k v fs)) no_items)))
      no_fields

-- `create`, where the guard stamps it.
abbrev pub stamp_create : Schema → ℕ → ℕ → ℕ → Operation → Option Fields → Checked (Option Fields)
stamp_create schema tenant model key Operation.upsert (some row) =
    assert_tenant_on_data schema tenant model key row >>= λ r. passed (some r)
stamp_create schema tenant model key operation row = passed row

unfoldable pub stamp_rows : Schema → ℕ → ℕ → ℕ → List Fields → Checked (List Fields)
stamp_rows schema tenant model key [] = passed []
stamp_rows schema tenant model key (row ∷ rows) = do
  r ← assert_tenant_on_data schema tenant model key row
  rs ← stamp_rows schema tenant model key rows
  passed (r ∷ rs)

unfoldable pub stamp_row_data : Schema → ℕ → ℕ → ℕ → RowData → Checked RowData
stamp_row_data schema tenant model key no_data = passed no_data
stamp_row_data schema tenant model key (one row) =
    assert_tenant_on_data schema tenant model key row >>= λ r. passed (one r)
stamp_row_data schema tenant model key (several rows) =
    stamp_rows schema tenant model key rows >>= λ rs. passed (several rs)

abbrev pub run_checked : Checked Arguments → Guarded
run_checked (refused e) = thrown e
run_checked (passed a) = run a

abbrev pub not_found_as : Operation → Guarded
not_found_as Operation.find_unique = found_nothing
not_found_as _ = thrown record_not_found

abbrev pub scoped_filter : ℕ → ℕ → Arguments → Arguments
scoped_filter key tenant a = record a { filter = with_tenant_where key tenant a.filter }

abbrev pub unique_filter : ℕ → ℕ → Arguments → Arguments
unique_filter key tenant a = record a { filter = with_tenant_unique_where key tenant a.filter }

abbrev pub guard_unique_write : Schema → ℕ → ℕ → ℕ → Operation → Arguments → Checked Arguments
guard_unique_write schema tenant model key operation a =
    stamp_create schema tenant model key operation a.create_row >>= λ row.
    passed (record (unique_filter key tenant a) { create_row = row })

abbrev pub guard_create : Schema → ℕ → ℕ → ℕ → Arguments → Checked Arguments
guard_create schema tenant model key a =
    stamp_row_data schema tenant model key a.rows >>= λ rows. passed (record a { rows = rows })

-- The branches on the operation, for a scoped model inside a tenant.
abbrev pub guard_kind : Schema → ℕ → ℕ → ℕ → Operation → Arguments → Kind → Guarded
guard_kind schema tenant model key operation a read = run (scoped_filter key tenant a)
guard_kind schema tenant model key operation a unique_read =
    if names_tenant tenant (get key a.filter)
    then not_found_as operation
    else run (unique_filter key tenant a)
guard_kind schema tenant model key operation a unique_write =
    if assert_where_tenant key tenant a.filter
    then run_checked (guard_unique_write schema tenant model key operation a)
    else thrown cross_tenant_write
guard_kind schema tenant model key operation a bulk_write = run (scoped_filter key tenant a)
guard_kind schema tenant model key operation a creation =
    run_checked (guard_create schema tenant model key a)
guard_kind schema tenant model key operation a unknown = thrown missing_tenant_context

abbrev pub guard_scoped : Schema → ℕ → Operation → Arguments → Option ContextValue → Guarded
guard_scoped schema model operation a none = thrown missing_tenant_context
guard_scoped schema model operation a (some system_context) = run a
guard_scoped schema model operation a (some (tenant_context tenant)) =
    guard_kind schema tenant model (tenant_key_for model) operation a (kind operation)

-- `$allOperations`.
unfoldable pub guard : Schema → Option ContextValue → ℕ → Operation → Arguments → Guarded
guard schema context model operation a =
    if is_scoped schema model then guard_scoped schema model operation a context else run a
