-- ===== src/Isolation/Nested/Inside.antt =====
-- packages/database/src/tenant-guard.ts: which rows nested in a created row carry the tenant.
use muzael.Common.{
  ℕ, zero, suc, ◌≡◌, subst, ◌⊎◌, inl, inr, Option, none, some, ◌==◌, if◌then◌else◌, arith,
  Bool-cases,
}
use muzael.Isolation.Values.{
  Value, null, text, scalar, array, object, Items, no_items, item, Fields, no_fields, field,
  create_key, create_many_key, connect_or_create_key, upsert_key, data_key, Schema, tenant_key_for,
  get, put, Checked, passed, ◌>>=◌, >>=-eq-passed,
}
use muzael.Isolation.Nested.{
  stamp_items, stamp_payload, stamp_data, stamp_create_many, stamp_entry, stamp_entries,
  scoped_target,
}
use muzael.Isolation.Nested.Rows.{get-put}

-- Every row of a list, or of one payload.
abbrev pub ItemsInside : (Fields → Type 0) → Items → Type 0
ItemsInside P no_items = Unit
ItemsInside P (item (object row) rest) = P row × ItemsInside P rest
ItemsInside P (item _ rest) = ItemsInside P rest

abbrev pub PayloadInside : (Fields → Type 0) → Value → Type 0
PayloadInside P (array rows) = ItemsInside P rows
PayloadInside P (object row) = P row
PayloadInside P _ = Unit

-- The rows under `data`, or the payload itself where it has no such list.
abbrev pub ManyInside : (Fields → Type 0) → (Fields → Type 0) → Value → Type 0
ManyInside Shallow P (object payload) =
    P payload
    ⊎ ((rows : Items) × (get data_key payload ≡ some (array rows)) × ItemsInside Shallow rows)
ManyInside Shallow P v = PayloadInside P v

abbrev pub EntryInside : (Fields → Type 0) → (Fields → Type 0) → ℕ → Value → Type 0
EntryInside Shallow P key v =
    if key == create_many_key
    then ManyInside Shallow P v
    else if key == create_key
    then PayloadInside P v
    else if key == connect_or_create_key
    then PayloadInside P v
    else if key == upsert_key
    then PayloadInside P v
    else Unit

abbrev pub EntriesInside : (Fields → Type 0) → (Fields → Type 0) → Fields → Type 0
EntriesInside Shallow P no_fields = Unit
EntriesInside Shallow P (field key v rest) =
    EntryInside Shallow P key v × EntriesInside Shallow P rest

abbrev pub FieldInside : (ℕ → Fields → Type 0) → (ℕ → Fields → Type 0) → Option ℕ → Value → Type 0
FieldInside Shallow P (some related) (object nested) =
    EntriesInside (Shallow related) (P related) nested
FieldInside Shallow P _ v = Unit

abbrev pub FieldsInside :
    (ℕ → Fields → Type 0) → (ℕ → Fields → Type 0) → Schema → ℕ → Fields → Type 0
FieldsInside Shallow P schema model no_fields = Unit
FieldsInside Shallow P schema model (field key v rest) =
    FieldInside Shallow P (scoped_target schema (schema.relation model key)) v
    × FieldsInside Shallow P schema model rest

abbrev pub HasTenant : ℕ → ℕ → Fields → Type 0
HasTenant tenant model row = get (tenant_key_for model) row ≡ some (text tenant)

-- The rows nested in a row of the model, down to a level, carry the tenant.
abbrev pub NestedInside : ℕ → Schema → ℕ → ℕ → Fields → Type 0
NestedInside zero schema tenant model row = Unit
NestedInside (suc levels) schema tenant model row =
    FieldsInside (HasTenant tenant)
      (λ related r. HasTenant tenant related r × NestedInside levels schema tenant related r) schema
      model row

module _ (P : Fields → Type 0) (stamp : Fields → Checked Fields)
    (good : (row r : Fields) → stamp row ≡ passed r → P r) where
  -- A member that is not a row stays.
  after_kept :
      (v : Value) (rest after : Items)
      → ((o : Items) → ItemsInside P o → ItemsInside P (item v o))
      → ((o : Items) → stamp_items stamp rest ≡ passed o → ItemsInside P o)
      → (stamp_items stamp rest >>= λ o. passed (item v o)) ≡ passed after
      → ItemsInside P after
  after_kept v rest after keep ih h =
      let others = >>=-eq-passed (stamp_items stamp rest) (λ o. passed (item v o)) h in
      let same : item v others.0 ≡ after = cc in
      subst (ItemsInside P) same (keep others.0 (ih others.0 others.1))

  stamp_items-inside :
      (xs after : Items) → stamp_items stamp xs ≡ passed after → ItemsInside P after
  unfolding stamp_items
  stamp_items-inside no_items after h =
      let same : no_items ≡ after = cc in subst (ItemsInside P) same tt
  stamp_items-inside (item (object row) rest) after h =
      let first =
        >>=-eq-passed (stamp row)
          (λ r. stamp_items stamp rest >>= λ others. passed (item (object r) others)) h in
      let others =
        >>=-eq-passed (stamp_items stamp rest) (λ os. passed (item (object first.0) os)) first.2 in
      let same : item (object first.0) others.0 ≡ after = cc in
      subst (ItemsInside P) same
        (good row first.0 first.1, stamp_items-inside rest others.0 others.1)
  stamp_items-inside (item null rest) after h =
      after_kept null rest after (λ o x. x) (stamp_items-inside rest) h
  stamp_items-inside (item (text t) rest) after h =
      after_kept (text t) rest after (λ o x. x) (stamp_items-inside rest) h
  stamp_items-inside (item (scalar n) rest) after h =
      after_kept (scalar n) rest after (λ o x. x) (stamp_items-inside rest) h
  stamp_items-inside (item (array xs) rest) after h =
      after_kept (array xs) rest after (λ o x. x) (stamp_items-inside rest) h

  stamp_payload-inside :
      (v after : Value) → stamp_payload stamp v ≡ passed after → PayloadInside P after
  stamp_payload-inside (array xs) after h =
      let rows = >>=-eq-passed (stamp_items stamp xs) (λ ys. passed (array ys)) h in
      let same : array rows.0 ≡ after = cc in
      subst (PayloadInside P) same (stamp_items-inside xs rows.0 rows.1)
  stamp_payload-inside (object row) after h =
      let stamped = >>=-eq-passed (stamp row) (λ r. passed (object r)) h in
      let same : object stamped.0 ≡ after = cc in
      subst (PayloadInside P) same (good row stamped.0 stamped.1)
  stamp_payload-inside null after h =
      let same : null ≡ after = cc in subst (PayloadInside P) same tt
  stamp_payload-inside (text t) after h =
      let same : text t ≡ after = cc in subst (PayloadInside P) same tt
  stamp_payload-inside (scalar n) after h =
      let same : scalar n ≡ after = cc in subst (PayloadInside P) same tt

module _ (Shallow P : Fields → Type 0) (shallow stamp : Fields → Checked Fields)
    (good_shallow : (row r : Fields) → shallow row ≡ passed r → Shallow r)
    (good : (row r : Fields) → stamp row ≡ passed r → P r) where
  stamp_single-inside :
      (payload : Fields) (after : Value)
      → (stamp payload >>= λ r. passed (object r)) ≡ passed after
      → ManyInside Shallow P after
  stamp_single-inside payload after h =
      let stamped = >>=-eq-passed (stamp payload) (λ r. passed (object r)) h in
      let same : object stamped.0 ≡ after = cc in
      subst (ManyInside Shallow P) same (inl (good payload stamped.0 stamped.1))

  stamp_data-inside :
      (payload : Fields) (data_ : Option Value) (after : Value)
      → stamp_data shallow stamp payload data_ ≡ passed after
      → ManyInside Shallow P after
  stamp_data-inside payload (some (array rows)) after h =
      let stamped =
        >>=-eq-passed (stamp_items shallow rows)
          (λ xs. passed (object (put data_key (array xs) payload))) h in
      let same : object (put data_key (array stamped.0) payload) ≡ after = cc in
      subst (ManyInside Shallow P) same (
        inr (
          stamped.0,
          get-put data_key (array stamped.0) payload,
          stamp_items-inside Shallow shallow good_shallow rows stamped.0 stamped.1,
        ))
  stamp_data-inside payload none after h = stamp_single-inside payload after h
  stamp_data-inside payload (some null) after h = stamp_single-inside payload after h
  stamp_data-inside payload (some (text t)) after h = stamp_single-inside payload after h
  stamp_data-inside payload (some (scalar n)) after h = stamp_single-inside payload after h
  stamp_data-inside payload (some (object fs)) after h = stamp_single-inside payload after h

  stamp_create_many-inside :
      (v after : Value)
      → stamp_create_many shallow stamp v ≡ passed after
      → ManyInside Shallow P after
  stamp_create_many-inside (object payload) after h =
      stamp_data-inside payload (get data_key payload) after h
  stamp_create_many-inside (array xs) after h =
      let rows = >>=-eq-passed (stamp_items stamp xs) (λ ys. passed (array ys)) h in
      let same : array rows.0 ≡ after = cc in
      subst (ManyInside Shallow P) same (stamp_items-inside P stamp good xs rows.0 rows.1)
  stamp_create_many-inside null after h =
      let same : null ≡ after = cc in subst (ManyInside Shallow P) same tt
  stamp_create_many-inside (text t) after h =
      let same : text t ≡ after = cc in subst (ManyInside Shallow P) same tt
  stamp_create_many-inside (scalar n) after h =
      let same : scalar n ≡ after = cc in subst (ManyInside Shallow P) same tt

  stamp_entry-inside :
      (key : ℕ) (v after : Value)
      → stamp_entry shallow stamp key v ≡ passed after
      → EntryInside Shallow P key after
  stamp_entry-inside key v after h =
      let payload = stamp_payload-inside P stamp good v after in
      elim (Bool-cases (key == create_many_key)) [
        | inl many ↦ rw many (stamp_create_many-inside v after (ground (arith, many)))
        | inr not_many ↦ elim (Bool-cases (key == create_key)) [
          | inl single ↦ rw not_many (rw single (payload (ground arith)))
          | inr not_single ↦ elim (Bool-cases (key == connect_or_create_key)) [
            | inl connect ↦ rw not_many (rw not_single (rw connect (payload (ground arith))))
            | inr not_connect ↦ elim (Bool-cases (key == upsert_key)) [
              | inl up ↦
                  rw not_many (rw not_single (rw not_connect (rw up (payload (ground arith)))))
              | inr not_up ↦ rw not_many (rw not_single (rw not_connect (rw not_up tt)))
            ]
          ]
        ]
      ]

  pub stamp_entries-inside :
      (fs after : Fields)
      → stamp_entries shallow stamp fs ≡ passed after
      → EntriesInside Shallow P after
  unfolding stamp_entries
  stamp_entries-inside no_fields after h =
      let same : no_fields ≡ after = cc in subst (EntriesInside Shallow P) same tt
  stamp_entries-inside (field key v rest) after h =
      let first =
        >>=-eq-passed (stamp_entry shallow stamp key v)
          (λ w. stamp_entries shallow stamp rest >>= λ others. passed (field key w others)) h in
      let others =
        >>=-eq-passed (stamp_entries shallow stamp rest) (λ os. passed (field key first.0 os))
          first.2 in
      let same : field key first.0 others.0 ≡ after = cc in
      subst (EntriesInside Shallow P) same
        (stamp_entry-inside key v first.0 first.1, stamp_entries-inside rest others.0 others.1)
