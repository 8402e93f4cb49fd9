-- ===== src/Task/Proto.antt =====
-- src/common/src/utils.cpp: tasks and JSON values to and from protocol buffers. The messages of
-- src/common/proto/task.proto are records, and the `Struct` of protobuf is a list of fields in the
-- order of iteration.
use Prim.Native.String.{String}
use tiny_reactor.Base.{ℕ, suc, Bool, if◌then◌else◌}
use tiny_reactor.Base.Int.{ℤ}
use text.Mathlib.Text.{◌==◌ as str_eq}
use tiny_reactor.Task.JsonValue.{
  Json, Items, Fields, Number, int, double, null, boolean, number, string, array, object, nil, cons,
  end, field, put,
}
use tiny_reactor.Task.{Task, state_code, state_of_code, default_task}

mutual
  pub data Value : Type 0 where
    kind_not_set null_value : Value
    bool_value : Bool → Value
    number_value : ℕ → Value
    string_value : String → Value
    struct_value : Struct → Value
    list_value : Values → Value

  pub data Values : Type 0 where
    none : Values
    item : Value → Values → Values

  pub data Struct : Type 0 where
    empty : Struct
    entry : String → Value → Struct → Struct

-- `(*proto->mutable_fields())[k] = v`.
unfoldable pub put_entry : String → Value → Struct → Struct
put_entry k v empty = entry k v empty
put_entry k v (entry j w s) = if str_eq j k then entry j v s else entry j w (put_entry k v s)

-- What the code takes from the libraries: the value of an integer as a double, and the key that
-- `items()` gives to the item of an array at an index.
pub record Library : Type 0 where
  pub double_of_int : ℤ → ℕ
  pub index_key : ℕ → String

abbrev pub double_of : Library → Number → ℕ
double_of lib (int z) = lib.double_of_int z
double_of lib (double d) = d

-- The loop of `JsonToStruct`. `value_of` is its chain of tests; `add_items` and `add_fields` are the
-- loop over the items of an array, from an index on, and over the fields of an object.
unfoldable mutual
  pub value_of : Library → Json → Value
  value_of lib (boolean b) = bool_value b
  value_of lib (number n) = number_value (double_of lib n)
  value_of lib (string s) = string_value s
  value_of lib null = null_value
  value_of lib (array xs) = struct_value (add_items lib xs 0 empty)
  value_of lib (object fs) = struct_value (add_fields lib fs empty)

  pub add_items : Library → Items → ℕ → Struct → Struct
  add_items lib nil i s = s
  add_items lib (cons x xs) i s =
      add_items lib xs (suc i) (put_entry (lib.index_key i) (value_of lib x) s)

  pub add_fields : Library → Fields → Struct → Struct
  add_fields lib end s = s
  add_fields lib (field k v fs) s = add_fields lib fs (put_entry k (value_of lib v) s)

-- `items()` of a value that holds no values is the value itself, under the empty key; that of null
-- is empty.
unfoldable pub json_to_struct : Library → Json → Struct
unfolding value_of put_entry
json_to_struct lib null = empty
json_to_struct lib (array xs) = add_items lib xs 0 empty
json_to_struct lib (object fs) = add_fields lib fs empty
json_to_struct lib v = put_entry "" (value_of lib v) empty

-- `j[k] = v` in `StructToJson`, where `j` begins as null and is an object from the first field on.
unfoldable pub assign : String → Json → Json → Json
unfolding put
assign k v null = object (field k v end)
assign k v (object fs) = object (put k v fs)
assign k v j = j

-- `struct_to_json` with the object built so far. A null, a list or no value adds no field.
unfoldable mutual
  unfolding assign

  pub add_entries : Struct → Json → Json
  add_entries empty j = j
  add_entries (entry k v s) j = add_entries s (add_entry k v j)

  pub add_entry : String → Value → Json → Json
  add_entry k (bool_value b) j = assign k (boolean b) j
  add_entry k (number_value d) j = assign k (number (double d)) j
  add_entry k (string_value t) j = assign k (string t) j
  add_entry k (struct_value s) j = assign k (add_entries s null) j
  add_entry k _ j = j

unfoldable pub struct_to_json : Struct → Json
unfolding add_entries
struct_to_json s = add_entries s null

-- An enum of proto3 is open: its field holds any 32-bit number.
pub record PbResource : Type 0 where
  pub cpu_core : ℕ
  pub mem_mb : ℕ

pub record PbShard : Type 0 where
  pub shard_id : ℕ
  pub total_shards : ℕ

pub record PbTask : Type 0 where
  pub task_id : String
  pub client_id : String
  pub priority : ℕ
  pub state : ℕ
  pub func_name : String
  pub func_params : Struct
  pub required : PbResource
  pub shard : PbShard
  pub timeout_ms : ℕ
  pub max_retry : ℕ
  pub retry_count : ℕ
  pub submit_ts : ℤ
  pub start_ts : ℤ
  pub finish_ts : ℤ
  pub result : Struct
  pub error_msg : String

unfoldable pub task_to_proto : Library → Task → PbTask
unfolding json_to_struct state_code
task_to_proto lib t = record {
  task_id = t.task_id;
  client_id = t.client_id;
  priority = t.priority;
  state = state_code t.state;
  func_name = t.func_name;
  func_params = json_to_struct lib t.func_params;
  required = record { cpu_core = t.required.cpu_core; mem_mb = t.required.mem_mb };
  shard = record { shard_id = t.shard.shard_id; total_shards = t.shard.total_shards };
  timeout_ms = t.timeout_ms;
  max_retry = t.max_retry;
  retry_count = t.retry_count;
  submit_ts = t.submit_ts;
  start_ts = t.start_ts;
  finish_ts = t.finish_ts;
  result = json_to_struct lib t.result;
  error_msg = t.error_msg;
}

unfoldable pub task_from_proto : PbTask → Task
unfolding struct_to_json state_of_code
task_from_proto p = record default_task {
  task_id = p.task_id;
  client_id = p.client_id;
  priority = p.priority;
  state = state_of_code p.state;
  func_name = p.func_name;
  func_params = struct_to_json p.func_params;
  required = record { cpu_core = p.required.cpu_core; mem_mb = p.required.mem_mb };
  shard = record { shard_id = p.shard.shard_id; total_shards = p.shard.total_shards };
  timeout_ms = p.timeout_ms;
  max_retry = p.max_retry;
  retry_count = p.retry_count;
  submit_ts = p.submit_ts;
  start_ts = p.start_ts;
  finish_ts = p.finish_ts;
  result = struct_to_json p.result;
  error_msg = p.error_msg;
}
