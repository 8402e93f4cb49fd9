-- ===== src/Task/Tests.antt =====
-- task.hpp and utils.cpp: runs at concrete inputs.
use Prim.Native.String.{String}
use tiny_reactor.Base.{ℕ, ◌≡◌, ◌≢◌, ◌↔◌, refl, true, Option, none, some, All, arith}
use tiny_reactor.Base.Int.{ℤ, pos}
use tiny_reactor.Task.JsonValue.{
  Json, Fields, int, double, null, boolean, number, string, array, object, nil, cons, end, field,
}
use tiny_reactor.Task.{Task, default_task}
use tiny_reactor.Task.Proto.{json_to_struct, struct_to_json, task_to_proto, task_from_proto}
use tiny_reactor.Task.Normal.{normal_document, is_distinct}
use tiny_reactor.Task.RoundTrip.{struct_to_json-json_to_struct}
use tiny_reactor.Task.Transfer.{transferred, task_from_proto-task_to_proto}
use tiny_reactor.Task.JsonCodec.{
  Getters, AreFaithful, ok, throws, out_of_range, type_error, find_field, at, to_json, from_json,
  IsInRange, from_json-to_json,
}
use tiny_reactor.Task.Sample.{sample_library, keys_differ}
use tiny_reactor.Task.Schema.{members, task_members, forget, check, Conforms}
use tiny_reactor.Task.Reading.{from_json-check}
use tiny_reactor.Task.Typing.{from_json-Conforms}
use tiny_reactor.Task.JsonKeys.{keys, from_json_needs}

-- {"a": [true, null], "b": {}, "c": null}
abbrev lossy : Json
lossy = object (
    field "a" (array (cons (boolean true) (cons null nil)))
      (field "b" (object end) (field "c" null end)))

lossy_normal :
    normal_document sample_library lossy
    ≡ object (field "a" (object (field "" (boolean true) end)) (field "b" null end))
unfolding normal_document
lossy_normal = refl

struct_to_json-json_to_struct_example :
    struct_to_json (json_to_struct sample_library lossy) ≡ normal_document sample_library lossy
unfolding is_distinct
struct_to_json-json_to_struct_example =
    struct_to_json-json_to_struct sample_library lossy keys_differ refl

abbrev lossy_task : Task
lossy_task = record default_task { func_params = lossy; cancelled = true }

task_from_proto-task_to_proto_example :
    task_from_proto (task_to_proto sample_library lossy_task)
    ≡ transferred sample_library lossy_task
unfolding is_distinct
task_from_proto-task_to_proto_example =
    task_from_proto-task_to_proto sample_library lossy_task keys_differ tt refl refl

-- {"x": {"y": "z"}}
abbrev exact_task : Task
exact_task = record default_task {
  func_params = object (field "x" (object (field "y" (string "z") end)) end);
}

-- Accessors that read back what was stored.
abbrev read_string : Json → Option String
read_string (string s) = some s
read_string _ = none

abbrev read_uint : ℕ → Json → Option ℕ
read_uint w (number (int (pos n))) = some n
read_uint w _ = none

abbrev read_int64 : Json → Option ℤ
read_int64 (number (int z)) = some z
read_int64 _ = none

abbrev read_double : Json → Option ℕ
read_double (number (double d)) = some d
read_double _ = none

abbrev getters : Getters
getters = record {
  get_string = read_string;
  get_uint = read_uint;
  get_int64 = read_int64;
  get_double = read_double;
}

getters-AreFaithful : AreFaithful getters
getters-AreFaithful = record {
  string_back = λ s. refl;
  uint_back = λ w n h. refl;
  int64_back = λ z h. refl;
  double_back = λ d. refl;
}

default_task-IsInRange : IsInRange default_task
default_task-IsInRange = omega arith

from_json-to_json_example : from_json getters (to_json default_task) ≡ ok default_task
from_json-to_json_example =
    from_json-to_json getters getters-AreFaithful default_task default_task-IsInRange

-- The object that `to_json` makes has all the keys.
fields_of_object : Json → Fields
fields_of_object (object fs) = fs
fields_of_object _ = end

default_task-keys :
    All (λ k. find_field k (fields_of_object (to_json default_task)) ≢ none) (keys task_members)
unfolding from_json to_json fields_of_object at
default_task-keys =
    from_json_needs getters (fields_of_object (to_json default_task)) default_task
      (from_json-to_json getters getters-AreFaithful default_task default_task-IsInRange)

missing_field : from_json getters (object end) ≡ throws (out_of_range "task_id")
unfolding from_json at
missing_field = refl

from_json-check_example :
    forget (from_json getters (object end)) ≡ check getters (members task_members) (object end)
from_json-check_example = from_json-check getters (object end)

-- A priority that is a text, in an object that lacks the later members.
abbrev misread : Json
misread = object (
    field "client_id" (string "c")
      (field "priority" (string "high") (field "task_id" (string "t") end)))

misread-checked : check getters (members task_members) misread ≡ throws type_error
unfolding check at
misread-checked = refl

from_json-Conforms_example :
    ((t : Task) × (from_json getters (to_json default_task) ≡ ok t))
    ↔ Conforms getters (members task_members) (to_json default_task)
from_json-Conforms_example = from_json-Conforms getters (to_json default_task)
