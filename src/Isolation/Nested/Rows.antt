-- ===== src/Isolation/Nested/Rows.antt =====
-- packages/database/src/tenant-guard.ts: what the stamp leaves in a row.
use muzael.Common.{
  ℕ, zero, suc, ◌≡◌, ◌≢◌, refl, sym, ap, ◌∙◌, subst, inl, inr, Bool-cases, Option, none, some, ◌==◌,
  arith,
}
use muzael.Isolation.Values.{
  Value, text, Fields, no_fields, field, id_key, Schema, get, put, Checked, passed, ◌>>=◌,
  >>=-eq-passed,
}
use muzael.Isolation.Nested.{
  stamp_row, scoped_target, stamp_field, stamp_fields, stamp_related, stamp_nested_creates,
  assert_tenant_on_data,
}

pub get-put : (key : ℕ) (v : Value) (fs : Fields) → get key (put key v fs) ≡ some v
unfolding get put
get-put key v no_fields = ground arith
get-put key v (field k w fs) = ground (arith, get-put key v fs)

stamp_field-text :
    (shallow stamp : ℕ → Fields → Checked Fields) (target : Option ℕ) (t : ℕ)
    → stamp_field shallow stamp target (text t) ≡ passed (text t)
stamp_field-text shallow stamp none t = refl
stamp_field-text shallow stamp (some related) t = refl

-- A text stays where it is.
get-stamp_fields :
    (shallow stamp : ℕ → Fields → Checked Fields) (schema : Schema) (model key t : ℕ)
    (fs after : Fields)
    → stamp_fields shallow stamp schema model fs ≡ passed after
    → get key fs ≡ some (text t)
    → get key after ≡ some (text t)
unfolding stamp_fields get
get-stamp_fields shallow stamp schema model key t no_fields after h g = cc
get-stamp_fields shallow stamp schema model key t (field k v rest) after h g =
    let target = scoped_target schema (schema.relation model k) in
    let first =
      >>=-eq-passed (stamp_field shallow stamp target v)
        (λ w. stamp_fields shallow stamp schema model rest >>= λ others. passed (field k w others))
        h in
    let second =
      >>=-eq-passed (stamp_fields shallow stamp schema model rest)
        (λ others. passed (field k first.0 others)) first.2 in
    let same : field k first.0 second.0 ≡ after = cc in
    let ih = get-stamp_fields shallow stamp schema model key t rest second.0 second.1 in
    let kept = stamp_field-text shallow stamp target t in
    subst (λ x. get key x ≡ some (text t)) same
      (elim (Bool-cases (k == key)) [
        | inl here ↦
            let is_some : some v ≡ some (text t) = ground arith in
            let is_text : v ≡ text t = cc in
            let stays : passed first.0 ≡ passed (text t) =
              sym first.1 ∙ ap (λ x. stamp_field shallow stamp target x) is_text ∙ kept in
            let is_first : first.0 ≡ text t = cc in ground (arith, is_first)
        | inr elsewhere ↦ ground arith
      ])

pub get-stamp_nested_creates :
    (levels : ℕ) (schema : Schema) (tenant model key t : ℕ) (fs after : Fields)
    → stamp_nested_creates levels schema tenant model fs ≡ passed after
    → get key fs ≡ some (text t)
    → get key after ≡ some (text t)
unfolding stamp_nested_creates
get-stamp_nested_creates zero schema tenant model key t fs after h g = cc
get-stamp_nested_creates (suc levels) schema tenant model key t fs after h g =
    get-stamp_fields (stamp_related tenant)
      (λ related row.
        stamp_related tenant related row >>= stamp_nested_creates levels schema tenant related)
      schema model key t fs after h g

-- A created row of a model with a `tenantId` carries the tenant.
pub get-assert_tenant_on_data :
    (schema : Schema) (tenant model key : ℕ) (row after : Fields)
    → key ≢ id_key
    → assert_tenant_on_data schema tenant model key row ≡ passed after
    → get key after ≡ some (text tenant)
unfolding assert_tenant_on_data stamp_row
get-assert_tenant_on_data schema tenant model key row after other h =
    let nested = stamp_nested_creates 3 schema tenant model in
    let own : (stamp_row key tenant row >>= nested) ≡ passed after = ground arith in
    let stamped = >>=-eq-passed (stamp_row key tenant row) nested own in
    let put_there : get key (put key (text tenant) row) ≡ some (text tenant) =
      get-put key (text tenant) row in
    let carries : get key stamped.0 ≡ some (text tenant) = ground (arith, stamped.1, put_there) in
    get-stamp_nested_creates 3 schema tenant model key tenant stamped.0 after stamped.2 carries
