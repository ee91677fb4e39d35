-- ===== src/Isolation/Guard/Tests.antt =====
-- A small client that reads filters, and the queries of one tenant against it.
use muzael.Common.{
  ℕ, ◌≡◌, refl, Bool, true, false, ◌&&◌, Option, none, some, [], ◌∷◌, ◌==◌, if◌then◌else◌,
}
use muzael.Isolation.Values.{
  Value, text, scalar, array, object, Items, no_items, item, Fields, no_fields, field, id_key,
  tenant_id_key, and_key, create_key, Schema, is_scoped, get, put, cross_tenant_write, passed,
}
use muzael.Isolation.Nested.{
  stamp_row, stamp_items, stamp_entries, stamp_fields, stamp_nested_creates, assert_tenant_on_data,
}
use muzael.Isolation.Guard.{
  Operation, one, Arguments, tenant_context, thrown, stamp_row_data, guard,
}

-- The value that the row has at a key is this text.
abbrev has_text : Option Value → ℕ → Bool
has_text (some (text u)) t = u == t
has_text _ t = false

unfoldable mutual
  -- Texts restrict the row, and so do the parts of `AND`; other tests are ignored.
  matches : Fields → Fields → Bool
  matches no_fields row = true
  matches (field key v rest) row = matches_value key v row && matches rest row

  matches_value : ℕ → Value → Fields → Bool
  matches_value key (text t) row = has_text (get key row) t
  matches_value key (array xs) row = if key == and_key then matches_items xs row else true
  matches_value key _ row = true

  matches_items : Items → Fields → Bool
  matches_items no_items row = true
  matches_items (item (object fs) rest) row = matches fs row && matches_items rest row
  matches_items (item _ rest) row = matches_items rest row

abbrev text_or_zero : Option Value → ℕ
text_or_zero (some (text t)) = t
text_or_zero _ = 0

abbrev column : ℕ → Fields → ℕ
column key row = text_or_zero (get key row)

-- Orders and their items.
abbrev schema : Schema
schema = record {
  models = 0 ∷ 2 ∷ 3 ∷ [];
  fields = λ model. id_key ∷ tenant_id_key ∷ [];
  relation = λ model key. if key == 20 then some 3 else none;
}

-- The orders of status 5, or an order 9 with one item.
abbrev asked : Arguments
asked = record {
  filter = field 10 (text 5) no_fields;
  rows = one (
      field id_key (text 9) (
        field 20
          (object (
            field create_key (array (item (object (field 11 (scalar 2) no_fields)) no_items))
              no_fields))
          no_fields));
  create_row = none;
}

nested_test :
    assert_tenant_on_data schema 42 2 tenant_id_key (
      field 20
        (object (
          field create_key
            (array (item (object (field 11 (scalar 2) no_fields)) no_items))
            no_fields))
        no_fields)
    ≡ passed (
        field 20
          (object (
            field create_key
              (array (
                item
                  (object (field 11 (scalar 2) (field tenant_id_key (text 42) no_fields)))
                  no_items))
              no_fields))
          (field tenant_id_key (text 42) no_fields))
unfolding assert_tenant_on_data stamp_nested_creates stamp_fields stamp_entries stamp_items
    stamp_row get put is_scoped
nested_test = refl

foreign_test :
    guard schema (some (tenant_context 42)) 2 Operation.create (record {
      filter = no_fields;
      rows = one (field tenant_id_key (text 43) no_fields);
      create_row = none;
    })
    ≡ thrown cross_tenant_write
unfolding guard is_scoped stamp_row_data assert_tenant_on_data stamp_row get
foreign_test = refl
