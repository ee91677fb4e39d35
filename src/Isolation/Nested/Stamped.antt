-- ===== src/Isolation/Nested/Stamped.antt =====
-- packages/database/src/tenant-guard.ts: what `stampNestedCreates` leaves in the rows nested in a row.
use muzael.Common.{ℕ, zero, suc, ◌≡◌, subst, Option, none, some, ◌==◌, arith, Bool-cases, inl, inr}
use muzael.Isolation.Values.{
  Value, null, text, scalar, array, object, Fields, no_fields, field, id_key, Schema,
  tenant_key_for, Checked, passed, ◌>>=◌, >>=-eq-passed,
}
use muzael.Isolation.Nested.{
  stamp_row, stamp_entries, scoped_target, stamp_field, stamp_fields, stamp_related,
  stamp_nested_creates, assert_tenant_on_data,
}
use muzael.Isolation.Nested.Rows.{get-put, get-stamp_nested_creates}
use muzael.Isolation.Nested.Inside.{
  FieldInside, FieldsInside, HasTenant, NestedInside, stamp_entries-inside,
}

module _ (Shallow P : ℕ → Fields → Type 0) (shallow stamp : ℕ → Fields → Checked Fields)
    (good_shallow : (m : ℕ) (row r : Fields) → shallow m row ≡ passed r → Shallow m r)
    (good : (m : ℕ) (row r : Fields) → stamp m row ≡ passed r → P m r) where
  stamp_field-inside :
      (target : Option ℕ) (v after : Value)
      → stamp_field shallow stamp target v ≡ passed after
      → FieldInside Shallow P target after
  stamp_field-inside none v after h = tt
  stamp_field-inside (some related) (object nested) after h =
      let stamped =
        >>=-eq-passed (stamp_entries (shallow related) (stamp related) nested)
          (λ fs. passed (object fs)) h in
      let same : object stamped.0 ≡ after = cc in
      subst (FieldInside Shallow P (some related)) same (
        stamp_entries-inside (Shallow related) (P related) (shallow related) (stamp related)
          (good_shallow related) (good related) nested stamped.0 stamped.1)
  stamp_field-inside (some related) null after h =
      let same : null ≡ after = cc in subst (FieldInside Shallow P (some related)) same tt
  stamp_field-inside (some related) (text t) after h =
      let same : text t ≡ after = cc in subst (FieldInside Shallow P (some related)) same tt
  stamp_field-inside (some related) (scalar n) after h =
      let same : scalar n ≡ after = cc in subst (FieldInside Shallow P (some related)) same tt
  stamp_field-inside (some related) (array xs) after h =
      let same : array xs ≡ after = cc in subst (FieldInside Shallow P (some related)) same tt

  stamp_fields-inside :
      (schema : Schema) (model : ℕ) (fs after : Fields)
      → stamp_fields shallow stamp schema model fs ≡ passed after
      → FieldsInside Shallow P schema model after
  unfolding stamp_fields
  stamp_fields-inside schema model no_fields after h =
      let same : no_fields ≡ after = cc in subst (FieldsInside Shallow P schema model) same tt
  stamp_fields-inside schema model (field key v rest) after h =
      let target = scoped_target schema (schema.relation model key) in
      let first =
        >>=-eq-passed (stamp_field shallow stamp target v)
          (λ w.
            stamp_fields shallow stamp schema model rest >>= λ others. passed (field key w others))
          h in
      let others =
        >>=-eq-passed (stamp_fields shallow stamp schema model rest)
          (λ os. passed (field key first.0 os)) first.2 in
      let same : field key first.0 others.0 ≡ after = cc in
      subst (FieldsInside Shallow P schema model) same (
        stamp_field-inside target v first.0 first.1,
        stamp_fields-inside schema model rest others.0 others.1,
      )

stamp_related-HasTenant :
    (tenant model : ℕ) (row r : Fields)
    → stamp_related tenant model row ≡ passed r
    → HasTenant tenant model r
unfolding stamp_row
stamp_related-HasTenant tenant model row r h =
    let key = tenant_key_for model in ground (arith, get-put key (text tenant) row)

pub stamp_nested_creates-NestedInside :
    (levels : ℕ) (schema : Schema) (tenant model : ℕ) (row after : Fields)
    → stamp_nested_creates levels schema tenant model row ≡ passed after
    → NestedInside levels schema tenant model after
unfolding stamp_nested_creates
stamp_nested_creates-NestedInside zero schema tenant model row after h = tt
stamp_nested_creates-NestedInside (suc levels) schema tenant model row after h =
    stamp_fields-inside (HasTenant tenant)
      (λ related r. HasTenant tenant related r × NestedInside levels schema tenant related r)
      (stamp_related tenant)
      (λ related r.
        stamp_related tenant related r >>= stamp_nested_creates levels schema tenant related)
      (stamp_related-HasTenant tenant)
      (λ related r stamped k.
        let own =
          >>=-eq-passed (stamp_related tenant related r)
            (stamp_nested_creates levels schema tenant related) k in
        (
          get-stamp_nested_creates levels schema tenant related (tenant_key_for related) tenant
              own.0 stamped own.2 (stamp_related-HasTenant tenant related r own.0 own.1),
          stamp_nested_creates-NestedInside levels schema tenant related own.0 stamped own.2,
        ))
      schema model row after h

pub assert_tenant_on_data-NestedInside :
    (schema : Schema) (tenant model key : ℕ) (row after : Fields)
    → assert_tenant_on_data schema tenant model key row ≡ passed after
    → NestedInside 3 schema tenant model after
unfolding assert_tenant_on_data
assert_tenant_on_data-NestedInside schema tenant model key row after h =
    let nested = stamp_nested_creates 3 schema tenant model in
    elim (Bool-cases (key == id_key)) [
      | inl exempt ↦
          let plain : nested row ≡ passed after = ground arith in
          stamp_nested_creates-NestedInside 3 schema tenant model row after plain
      | inr other ↦
          let own : (stamp_row key tenant row >>= nested) ≡ passed after = ground arith in
          let stamped = >>=-eq-passed (stamp_row key tenant row) nested own in
          stamp_nested_creates-NestedInside 3 schema tenant model stamped.0 after stamped.2
    ]
