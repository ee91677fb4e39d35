-- ===== src/Isolation/Guard/Created.antt =====
-- packages/database/src/tenant-guard.ts: the rows that a query which the guard lets pass creates.
use muzael.Common.{ℕ, ◌≡◌, ◌≢◌, subst, Option, none, some, List, [], ◌∷◌, All}
use muzael.Isolation.Values.{
  text, Fields, id_key, Schema, get, Checked, passed, ◌>>=◌, >>=-eq-passed,
}
use muzael.Isolation.Nested.{assert_tenant_on_data}
use muzael.Isolation.Nested.Rows.{get-assert_tenant_on_data}
use muzael.Isolation.Nested.Inside.{NestedInside}
use muzael.Isolation.Nested.Stamped.{assert_tenant_on_data-NestedInside}
use muzael.Isolation.Guard.{
  Operation, RowData, no_data, one, several, stamp_create, stamp_rows, stamp_row_data,
}

-- A created row carries the tenant, except for the tenants' own rows, and so do the rows nested in it.
abbrev pub Carries : Schema → ℕ → ℕ → ℕ → Fields → Type 0
Carries schema model key tenant row =
    (key ≢ id_key → get key row ≡ some (text tenant)) × NestedInside 3 schema tenant model row

abbrev pub RowsInside : Schema → ℕ → ℕ → ℕ → RowData → Type 0
RowsInside schema model key tenant no_data = Unit
RowsInside schema model key tenant (one row) = Carries schema model key tenant row
RowsInside schema model key tenant (several rows) = All (Carries schema model key tenant) rows

-- The row that an upsert creates where it finds none.
abbrev pub UpsertInside : Schema → ℕ → ℕ → ℕ → Operation → Option Fields → Type 0
UpsertInside schema model key tenant Operation.upsert (some row) =
    Carries schema model key tenant row
UpsertInside schema model key tenant operation row = Unit

carried :
    (schema : Schema) (tenant model key : ℕ) (row after : Fields)
    → assert_tenant_on_data schema tenant model key row ≡ passed after
    → Carries schema model key tenant after
carried schema tenant model key row after h = (
  λ other. get-assert_tenant_on_data schema tenant model key row after other h,
  assert_tenant_on_data-NestedInside schema tenant model key row after h,
)

stamp_rows-inside :
    (schema : Schema) (tenant model key : ℕ) (rows after : List Fields)
    → stamp_rows schema tenant model key rows ≡ passed after
    → All (Carries schema model key tenant) after
unfolding stamp_rows
stamp_rows-inside schema tenant model key [] after h =
    let same : [] ≡ after = cc in subst (All (Carries schema model key tenant)) same tt
stamp_rows-inside schema tenant model key (row ∷ rows) after h =
    let rest : Fields → Checked (List Fields) =
      λ r. stamp_rows schema tenant model key rows >>= λ rs. passed (r ∷ rs) in
    let first = >>=-eq-passed (assert_tenant_on_data schema tenant model key row) rest h in
    let others =
      >>=-eq-passed (stamp_rows schema tenant model key rows) (λ rs. passed (first.0 ∷ rs))
        first.2 in
    let same : first.0 ∷ others.0 ≡ after = cc in
    subst (All (Carries schema model key tenant)) same (
      carried schema tenant model key row first.0 first.1,
      stamp_rows-inside schema tenant model key rows others.0 others.1,
    )

pub stamp_row_data-inside :
    (schema : Schema) (tenant model key : ℕ) (rows after : RowData)
    → stamp_row_data schema tenant model key rows ≡ passed after
    → RowsInside schema model key tenant after
unfolding stamp_row_data
stamp_row_data-inside schema tenant model key no_data after h =
    let same : no_data ≡ after = cc in subst (RowsInside schema model key tenant) same tt
stamp_row_data-inside schema tenant model key (one row) after h =
    let stamped =
      >>=-eq-passed (assert_tenant_on_data schema tenant model key row) (λ r. passed (one r)) h in
    let same : one stamped.0 ≡ after = cc in
    subst (RowsInside schema model key tenant) same
      (carried schema tenant model key row stamped.0 stamped.1)
stamp_row_data-inside schema tenant model key (several rows) after h =
    let stamped =
      >>=-eq-passed (stamp_rows schema tenant model key rows) (λ rs. passed (several rs)) h in
    let same : several stamped.0 ≡ after = cc in
    subst (RowsInside schema model key tenant) same
      (stamp_rows-inside schema tenant model key rows stamped.0 stamped.1)

pub stamp_create-inside :
    (schema : Schema) (tenant model key : ℕ) (operation : Operation) (row after : Option Fields)
    → stamp_create schema tenant model key operation row ≡ passed after
    → UpsertInside schema model key tenant operation after
stamp_create-inside schema tenant model key Operation.upsert (some row) after h =
    let stamped =
      >>=-eq-passed (assert_tenant_on_data schema tenant model key row) (λ r. passed (some r)) h in
    let same : some stamped.0 ≡ after = cc in
    subst (UpsertInside schema model key tenant Operation.upsert) same
      (carried schema tenant model key row stamped.0 stamped.1)
stamp_create-inside schema tenant model key Operation.upsert none after h =
    let same : none ≡ after = cc in
    subst (UpsertInside schema model key tenant Operation.upsert) same tt
stamp_create-inside schema tenant model key _ row after h = tt
