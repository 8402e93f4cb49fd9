-- ===== src/Task/Normal.antt =====
-- utils.cpp: what a JSON value is after a trip through a protobuf `Struct`, written without the
-- conversions: nulls are dropped, arrays are objects over their indices, numbers are doubles.
use Prim.Native.String.{String}
use tiny_reactor.Base.{ℕ, suc, Bool, true, not, ◌&&◌, Option, none, some}
use tiny_reactor.Task.JsonValue.{
  Json, Items, Fields, double, null, boolean, number, string, array, object, nil, cons, end, field,
  has,
}
use tiny_reactor.Task.Proto.{Library, double_of}

-- An object without fields is never made: null stands in its place.
unfoldable pub object_or_null : Fields → Json
object_or_null end = null
object_or_null (field k v fs) = object (field k v fs)

unfoldable pub field_if : String → Option Json → Fields → Fields
field_if k none fs = fs
field_if k (some v) fs = field k v fs

unfoldable mutual
  unfolding object_or_null field_if

  -- A value below a key; `none` for a value that adds no field.
  pub normal : Library → Json → Option Json
  normal lib null = none
  normal lib (boolean b) = some (boolean b)
  normal lib (number n) = some (number (double (double_of lib n)))
  normal lib (string s) = some (string s)
  normal lib (array xs) = some (object_or_null (normal_items lib xs 0))
  normal lib (object fs) = some (object_or_null (normal_fields lib fs))

  pub normal_items : Library → Items → ℕ → Fields
  normal_items lib nil i = end
  normal_items lib (cons x xs) i =
      field_if (lib.index_key i) (normal lib x) (normal_items lib xs (suc i))

  pub normal_fields : Library → Fields → Fields
  normal_fields lib end = end
  normal_fields lib (field k v fs) = field_if k (normal lib v) (normal_fields lib fs)

-- A whole document: a value that is no container stands under the empty key.
unfoldable pub normal_document : Library → Json → Json
unfolding normal
normal_document lib null = null
normal_document lib (array xs) = object_or_null (normal_items lib xs 0)
normal_document lib (object fs) = object_or_null (normal_fields lib fs)
normal_document lib v = object_or_null (field_if "" (normal lib v) end)

unfoldable mutual
  unfolding has

  -- No object at any depth has a key twice.
  pub is_distinct : Json → Bool
  is_distinct (array xs) = are_distinct xs
  is_distinct (object fs) = has_distinct_keys fs
  is_distinct _ = true

  pub are_distinct : Items → Bool
  are_distinct nil = true
  are_distinct (cons x xs) = is_distinct x && are_distinct xs

  pub has_distinct_keys : Fields → Bool
  has_distinct_keys end = true
  has_distinct_keys (field k v fs) = not (has k fs) && is_distinct v && has_distinct_keys fs
