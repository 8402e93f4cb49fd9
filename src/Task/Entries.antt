-- ===== src/Task/Entries.antt =====
-- utils.cpp: the entries that the loops of `JsonToStruct` add, and what `StructToJson` makes of them.
use Prim.Native.String.{String}
use tiny_reactor.Base.{
  ℕ, suc, ◌≡◌, refl, sym, ap, ◌∙◌, Bool, true, false, not, ◌&&◌, Option, none, some, arith,
}
use text.Mathlib.Text.{◌==◌ as str_eq}
use text.Mathlib.TextEquality.{eq_iff}
use tiny_reactor.Task.JsonValue.{
  Json, Items, Fields, double, null, boolean, number, string, nil, cons, end, field, has, append,
}
use tiny_reactor.Task.Proto.{
  Library, Value, Struct, kind_not_set, null_value, bool_value, number_value, string_value,
  struct_value, list_value, empty, entry, value_of, add_fields, add_entries, add_entry,
}
use tiny_reactor.Task.Normal.{object_or_null, field_if, is_distinct, has_distinct_keys}
use tiny_reactor.Task.Structs.{
  has_entry, append_entries, append_entries-empty, append_entries_assoc, has_entry-append,
  put_entry-absent, append-end, append_assoc, assign-absent, fresh_for, fresh_for-append,
}

-- What each value adds under its key, and the fields that a struct adds to an object.
unfoldable pub json_of : Value → Option Json
json_of (bool_value b) = some (boolean b)
json_of (number_value d) = some (number (double d))
json_of (string_value t) = some (string t)
json_of (struct_value s) = some (add_entries s null)
json_of _ = none

unfoldable pub fields_of : Struct → Fields
unfolding json_of field_if
fields_of empty = end
fields_of (entry k v s) = field_if k (json_of v) (fields_of s)

add_entry-json_of :
    (k : String) (v : Value) (fs : Fields)
    → has k fs ≡ false
    → add_entry k v (object_or_null fs) ≡ object_or_null (append fs (field_if k (json_of v) end))
unfolding add_entries json_of field_if
add_entry-json_of k kind_not_set fs h = ap object_or_null (sym (append-end fs))
add_entry-json_of k null_value fs h = ap object_or_null (sym (append-end fs))
add_entry-json_of k (bool_value b) fs h = assign-absent k _ fs h
add_entry-json_of k (number_value d) fs h = assign-absent k _ fs h
add_entry-json_of k (string_value t) fs h = assign-absent k _ fs h
add_entry-json_of k (struct_value s) fs h = assign-absent k _ fs h
add_entry-json_of k (list_value x) fs h = ap object_or_null (sym (append-end fs))

field_if-fresh_for :
    (k : String) (o : Option Json) (s : Struct) (fs : Fields)
    → has_entry k s ≡ false
    → fresh_for s fs ≡ true
    → fresh_for s (append fs (field_if k o end)) ≡ true
unfolding field_if
field_if-fresh_for k none s fs h f = rw append-end f
field_if-fresh_for k (some v) s fs h f = fresh_for-append k v s fs h f

append-field_if :
    (k : String) (o : Option Json) (fs gs : Fields)
    → append (append fs (field_if k o end)) gs ≡ append fs (field_if k o gs)
unfolding field_if append
append-field_if k none fs gs = ap (λ x. append x gs) (append-end fs)
append-field_if k (some v) fs gs = append_assoc fs (field k v end) gs

pub add_entries-fields_of :
    (s : Struct) (fs : Fields)
    → fresh_for s fs ≡ true
    → add_entries s (object_or_null fs) ≡ object_or_null (append fs (fields_of s))
unfolding add_entries fields_of fresh_for
add_entries-fields_of empty fs f = ap object_or_null (sym (append-end fs))
add_entries-fields_of (entry k v s) fs f =
    ap (add_entries s) (add_entry-json_of k v fs (ground arith))
    ∙ add_entries-fields_of s (append fs (field_if k (json_of v) end))
        (field_if-fresh_for k (json_of v) s fs (ground arith) (ground arith))
    ∙ ap object_or_null (append-field_if k (json_of v) fs (fields_of s))

-- The entries that the loops of `JsonToStruct` add.
unfoldable pub vals : Library → Fields → Struct
vals lib end = empty
vals lib (field k v fs) = entry k (value_of lib v) (vals lib fs)

unfoldable pub item_vals : Library → Items → ℕ → Struct
item_vals lib nil i = empty
item_vals lib (cons x xs) i = entry (lib.index_key i) (value_of lib x) (item_vals lib xs (suc i))

-- No key of `fs` is in `s`.
pub avoids : Fields → Struct → Bool
avoids end s = true
avoids (field k v fs) s = not (has_entry k s) && avoids fs s

avoids-append :
    (k : String) (v : Value) (fs : Fields) (s : Struct)
    → has k fs ≡ false
    → avoids fs s ≡ true
    → avoids fs (append_entries s (entry k v empty)) ≡ true
unfolding avoids has has_entry
avoids-append k v end s h a = refl
avoids-append k v (field j w fs) s h a =
    ground (
      arith,
      has_entry-append j s (entry k v empty),
      avoids-append k v fs s,
      eq_iff j k,
      eq_iff k j,
    )

avoids-field :
    (k : String) (v : Json) (fs : Fields) (s : Struct)
    → avoids (field k v fs) s ≡ true
    → (has_entry k s ≡ false) × (avoids fs s ≡ true)
unfolding avoids
avoids-field k v fs s a = ground arith

pub avoids-empty : (fs : Fields) → avoids fs empty ≡ true
unfolding avoids has_entry
avoids-empty end = refl
avoids-empty (field k v fs) = avoids-empty fs

has_entry-vals : (lib : Library) (k : String) (fs : Fields) → has_entry k (vals lib fs) ≡ has k fs
unfolding has_entry vals has
has_entry-vals lib k end = refl
has_entry-vals lib k (field j v fs) = ground (arith, has_entry-vals lib k fs)

and_parts : (a b c : Bool) → (not a && b && c) ≡ true → (a ≡ false) × (b ≡ true) × (c ≡ true)
and_parts a b c h = ground arith

pub and_two : (a b : Bool) → (a && b) ≡ true → (a ≡ true) × (b ≡ true)
and_two a b h = ground arith

pub field-distinct :
    (k : String) (v : Json) (fs : Fields)
    → has_distinct_keys (field k v fs) ≡ true
    → (has k fs ≡ false) × (is_distinct v ≡ true) × (has_distinct_keys fs ≡ true)
unfolding is_distinct
field-distinct k v fs h = and_parts (has k fs) (is_distinct v) (has_distinct_keys fs) h

pub add_fields-vals :
    (lib : Library) (fs : Fields) (s : Struct)
    → has_distinct_keys fs ≡ true
    → avoids fs s ≡ true
    → add_fields lib fs s ≡ append_entries s (vals lib fs)
unfolding value_of vals append_entries
add_fields-vals lib end s d a = sym (append_entries-empty s)
add_fields-vals lib (field k v fs) s d a =
    let (new, _, rest) = field-distinct k v fs d in
    let (absent, clear) = avoids-field k v fs s a in
    ap (add_fields lib fs) (put_entry-absent k (value_of lib v) s absent)
    ∙ add_fields-vals lib fs _ rest (avoids-append k (value_of lib v) fs s new clear)
    ∙ append_entries_assoc s (entry k (value_of lib v) empty) (vals lib fs)

pub fresh_for-vals :
    (lib : Library) (fs : Fields) → has_distinct_keys fs ≡ true → fresh_for (vals lib fs) end ≡ true
unfolding vals fresh_for has
fresh_for-vals lib end d = refl
fresh_for-vals lib (field k v fs) d =
    let (new, _, rest) = field-distinct k v fs d in
    rw (has_entry-vals lib k fs, new) (fresh_for-vals lib fs rest)

pub str_ne-sym : (s t : String) → str_eq s t ≡ false → str_eq t s ≡ false
str_ne-sym s t h = ground (arith, eq_iff s t, eq_iff t s)
