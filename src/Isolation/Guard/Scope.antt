-- ===== src/Isolation/Guard/Scope.antt =====
-- packages/database/src/tenant-guard.ts: what a query that the guard lets pass can reach. How the database
-- client reads a filter is a parameter: of its documented behaviour only that every key of a filter
-- restricts it, and that `AND` means all its parts.
use muzael.Common.{ℕ, ◌≡◌, Bool, true, some}
use muzael.Isolation.Values.{
  text, array, object, Items, item, Fields, no_fields, field, and_key, Schema, tenant_key_for, get,
}
use muzael.Isolation.Guard.{
  Operation, Kind, read, unique_read, unique_write, bulk_write, creation, unknown, Arguments,
}
use muzael.Isolation.Guard.Created.{RowsInside, UpsertInside}

-- The client's reading of a filter.
pub record Client {Row : Type 0} (column : ℕ → Row → ℕ) (matches : Fields → Row → Bool)
    : Type 0 where
  pub key_restricts :
      (model : ℕ) (fs : Fields) (row : Row) (t : ℕ)
      → get (tenant_key_for model) fs ≡ some (text t)
      → matches fs row ≡ true
      → column (tenant_key_for model) row ≡ t
  pub and_means_all :
      (fs : Fields) (rest : Items) (row : Row)
      → matches (field and_key (array (item (object fs) rest)) no_fields) row ≡ true
      → matches fs row ≡ true

module _ {Row : Type 0} (column : ℕ → Row → ℕ) (matches : Fields → Row → Bool) where
  -- Whatever the filter finds belongs to the tenant.
  abbrev pub FilterInside : ℕ → ℕ → Fields → Type 0
  FilterInside key tenant filter = (row : Row) → matches filter row ≡ true → column key row ≡ tenant

  -- What an operation of each kind must not reach beyond.
  abbrev pub KindInside : Schema → ℕ → ℕ → Operation → Arguments → Kind → Type 0
  KindInside schema model tenant operation a read =
      FilterInside (tenant_key_for model) tenant a.filter
  KindInside schema model tenant operation a unique_read =
      FilterInside (tenant_key_for model) tenant a.filter
  KindInside schema model tenant operation a unique_write =
      FilterInside (tenant_key_for model) tenant a.filter
      × UpsertInside schema model (tenant_key_for model) tenant operation a.create_row
  KindInside schema model tenant operation a bulk_write =
      FilterInside (tenant_key_for model) tenant a.filter
  KindInside schema model tenant operation a creation =
      RowsInside schema model (tenant_key_for model) tenant a.rows
  KindInside schema model tenant operation a unknown = ⊥
