-- ===== src/Task/RoundTrip.antt =====
-- utils.cpp: `StructToJson` after `JsonToStruct` is the normal form of a value.
use tiny_reactor.Base.{
  ℕ, suc, ◌≤◌, ◌<◌, ◌≡◌, refl, sym, ap, ◌∙◌, true, false, some, arith, Bool-cases, inl, inr,
}
use text.Mathlib.Text.{◌==◌ as str_eq}
use text.Mathlib.TextEquality.{eq_iff}
use tiny_reactor.Task.JsonValue.{
  Json, Items, Fields, null, boolean, number, string, array, object, nil, cons, end, field, has,
  append,
}
use tiny_reactor.Task.Proto.{
  Library, Value, Struct, empty, entry, value_of, add_items, add_fields, json_to_struct,
  add_entries, struct_to_json,
}
use tiny_reactor.Task.Normal.{
  object_or_null, field_if, normal, normal_items, normal_fields, normal_document, is_distinct,
  are_distinct, has_distinct_keys,
}
use tiny_reactor.Task.Structs.{
  has_entry, append_entries, append_entries-empty, append_entries_assoc, has_entry-append,
  put_entry-absent, fresh_for,
}
use tiny_reactor.Task.Entries.{
  json_of, fields_of, add_entries-fields_of, vals, item_vals, avoids-empty, and_two, field-distinct,
  add_fields-vals, fresh_for-vals, str_ne-sym,
}

-- The items of an array stand under the keys of their indices, which differ.
abbrev pub KeysDiffer : Library → Type 0
KeysDiffer lib = (i j : ℕ) → lib.index_key i ≡ lib.index_key j → i ≡ j

module _ (lib : Library) (keys : KeysDiffer lib) where
  key-ne : (i j : ℕ) → i < j → str_eq (lib.index_key i) (lib.index_key j) ≡ false
  key-ne i j h = elim (Bool-cases (str_eq (lib.index_key i) (lib.index_key j))) [
    | inl e ↦ absurd (omega (arith, keys i j ((eq_iff _ _).0 e)))
    | inr e ↦ e
  ]

  has_entry-item_vals :
      (xs : Items) (i j : ℕ) → j < i → has_entry (lib.index_key j) (item_vals lib xs i) ≡ false
  unfolding has_entry item_vals
  has_entry-item_vals nil i j h = refl
  has_entry-item_vals (cons x xs) i j h =
      rw (str_ne-sym _ _ (key-ne j i h)) (has_entry-item_vals xs (suc i) j (omega arith))

  later-key :
      (i j : ℕ) (v : Value)
      → i < j
      → has_entry (lib.index_key j) (entry (lib.index_key i) v empty) ≡ false
  unfolding has_entry
  later-key i j v h = rw (key-ne i j h)

  add_items-vals :
      (xs : Items) (i : ℕ) (s : Struct)
      → ((j : ℕ) → i ≤ j → has_entry (lib.index_key j) s ≡ false)
      → add_items lib xs i s ≡ append_entries s (item_vals lib xs i)
  unfolding value_of item_vals append_entries
  add_items-vals nil i s a = sym (append_entries-empty s)
  add_items-vals (cons x xs) i s a =
      ap (add_items lib xs (suc i))
        (put_entry-absent (lib.index_key i) (value_of lib x) s (a i (omega arith)))
      ∙ add_items-vals xs (suc i) _
          (λ j h. rw (has_entry-append, a j (omega arith)) (later-key i j (value_of lib x) h))
      ∙ append_entries_assoc s (entry (lib.index_key i) (value_of lib x) empty)
          (item_vals lib xs (suc i))

  fresh_for-item_vals : (xs : Items) (i : ℕ) → fresh_for (item_vals lib xs i) end ≡ true
  unfolding item_vals fresh_for has
  fresh_for-item_vals nil i = refl
  fresh_for-item_vals (cons x xs) i =
      rw (has_entry-item_vals xs (suc i) i (omega arith)) (fresh_for-item_vals xs (suc i))

  object-entries :
      (fs : Fields)
      → has_distinct_keys fs ≡ true
      → add_entries (add_fields lib fs empty) null ≡ object_or_null (fields_of (vals lib fs))
  unfolding object_or_null append append_entries
  object-entries fs d =
      ap (λ s. add_entries s null) (add_fields-vals lib fs empty d (avoids-empty fs))
      ∙ add_entries-fields_of (vals lib fs) end (fresh_for-vals lib fs d)

  array-entries :
      (xs : Items)
      → add_entries (add_items lib xs 0 empty) null
        ≡ object_or_null (fields_of (item_vals lib xs 0))
  unfolding object_or_null append append_entries has_entry
  array-entries xs =
      ap (λ s. add_entries s null) (add_items-vals xs 0 empty (λ j h. refl))
      ∙ add_entries-fields_of (item_vals lib xs 0) end (fresh_for-item_vals xs 0)

  item-distinct :
      (x : Json) (xs : Items)
      → are_distinct (cons x xs) ≡ true
      → (is_distinct x ≡ true) × (are_distinct xs ≡ true)
  unfolding is_distinct
  item-distinct x xs h = and_two (is_distinct x) (are_distinct xs) h

  array-distinct : (xs : Items) → is_distinct (array xs) ≡ true → are_distinct xs ≡ true
  unfolding is_distinct
  array-distinct xs h = h

  object-distinct : (fs : Fields) → is_distinct (object fs) ≡ true → has_distinct_keys fs ≡ true
  unfolding is_distinct
  object-distinct fs h = h

mutual
  unfolding value_of json_of normal fields_of vals item_vals

  value-normal :
      (lib : Library) (keys : KeysDiffer lib) (v : Json)
      → is_distinct v ≡ true
      → json_of (value_of lib v) ≡ normal lib v
  value-normal lib keys null d = refl
  value-normal lib keys (boolean b) d = refl
  value-normal lib keys (number n) d = refl
  value-normal lib keys (string s) d = refl
  value-normal lib keys (array xs) d = ap some (
      array-entries lib keys xs
      ∙ ap object_or_null (items-normal lib keys xs 0 (array-distinct lib keys xs d)))
  value-normal lib keys (object fs) d = ap some (
      object-entries lib keys fs (object-distinct lib keys fs d)
      ∙ ap object_or_null (fields-normal lib keys fs (object-distinct lib keys fs d)))

  items-normal :
      (lib : Library) (keys : KeysDiffer lib) (xs : Items) (i : ℕ)
      → are_distinct xs ≡ true
      → fields_of (item_vals lib xs i) ≡ normal_items lib xs i
  items-normal lib keys nil i d = refl
  items-normal lib keys (cons x xs) i d =
      let (one, rest) = item-distinct lib keys x xs d in
      ap (λ o. field_if (lib.index_key i) o (fields_of (item_vals lib xs (suc i))))
        (value-normal lib keys x one)
      ∙ ap (field_if (lib.index_key i) (normal lib x)) (items-normal lib keys xs (suc i) rest)

  fields-normal :
      (lib : Library) (keys : KeysDiffer lib) (fs : Fields)
      → has_distinct_keys fs ≡ true
      → fields_of (vals lib fs) ≡ normal_fields lib fs
  fields-normal lib keys end d = refl
  fields-normal lib keys (field k v fs) d =
      let (_, one, rest) = field-distinct k v fs d in
      ap (λ o. field_if k o (fields_of (vals lib fs))) (value-normal lib keys v one)
      ∙ ap (field_if k (normal lib v)) (fields-normal lib keys fs rest)

-- For a JSON value in which no object has a key twice, `StructToJson` after `JsonToStruct` gives its
-- normal form: an array becomes the object of its items under their indices, a null field and an
-- empty object are dropped or become null, a number becomes a double, and a value that is no
-- container stands under the empty key.
pub struct_to_json-json_to_struct :
    (lib : Library) (j : Json)
    → KeysDiffer lib
    → is_distinct j ≡ true
    → struct_to_json (json_to_struct lib j) ≡ normal_document lib j
unfolding struct_to_json json_to_struct normal_document
struct_to_json-json_to_struct lib null keys d = refl
struct_to_json-json_to_struct lib (boolean b) keys d = refl
struct_to_json-json_to_struct lib (number n) keys d = refl
struct_to_json-json_to_struct lib (string s) keys d = refl
struct_to_json-json_to_struct lib (array xs) keys d =
    array-entries lib keys xs
    ∙ ap object_or_null (items-normal lib keys xs 0 (array-distinct lib keys xs d))
struct_to_json-json_to_struct lib (object fs) keys d =
    object-entries lib keys fs (object-distinct lib keys fs d)
    ∙ ap object_or_null (fields-normal lib keys fs (object-distinct lib keys fs d))
