-- ===== src/Task/JsonCodec.antt =====
-- src/common/include/task.hpp: `to_json` and `from_json` of a task and of its parts. The
-- conversions of `nlohmann::json` between a value and a C++ type are a parameter.
use Prim.Native.String.{String}
use tiny_reactor.Base.{ℕ, ◌<◌, ◌^◌, ◌≡◌, false, Option, none, some, if◌then◌else◌, arith}
use tiny_reactor.Base.Int.{ℤ, pos, negsuc}
use text.Mathlib.Text.{◌==◌ as str_eq}
use tiny_reactor.Task.JsonValue.{Json, Fields, int, double, number, string, object, end, field}
use tiny_reactor.Task.{Task, TaskState, Resource, Shard, state_code, state_of_code, default_task}
use tiny_reactor.Task.Transfer.{IsByte, state_of_code-state_code}

pub data JsonError : Type 0 where
  out_of_range : String → JsonError
  type_error : JsonError

pub data Parsed {ℓ} (A : Type ℓ) : Type ℓ where
  ok : A → Parsed A
  throws : JsonError → Parsed A

infixl 5 ◌>>=◌
abbrev pub ◌>>=◌ {ℓ κ} : {A : Type ℓ} {B : Type κ} → Parsed A → (A → Parsed B) → Parsed B
throws why >>= next = throws why
ok value >>= next = next value

-- `get_to` for the types of the members; `none` is the library's type error.
pub record Getters : Type 0 where
  pub get_string : Json → Option String
  pub get_uint : ℕ → Json → Option ℕ
  pub get_int64 : Json → Option ℤ
  pub get_double : Json → Option ℕ

-- The range of `int64_t`.
abbrev pub IsInt64 : ℤ → Type 0
IsInt64 (pos n) = n < 2 ^ 63
IsInt64 (negsuc n) = n < 2 ^ 63

-- What the library documents of them: a value that was stored from a type is read back at that type.
pub record AreFaithful (g : Getters) : Type 0 where
  pub string_back : (s : String) → g.get_string (string s) ≡ some s
  pub uint_back : (w n : ℕ) → n < 2 ^ w → g.get_uint w (number (int (pos n))) ≡ some n
  pub int64_back : (z : ℤ) → IsInt64 z → g.get_int64 (number (int z)) ≡ some z
  pub double_back : (d : ℕ) → g.get_double (number (double d)) ≡ some d

unfoldable pub find_field : String → Fields → Option Json
find_field k end = none
find_field k (field j v fs) = if str_eq j k then some v else find_field k fs

-- `j.at(k)`.
unfoldable pub at : String → Json → Parsed Json
unfolding find_field
at k (object fs) = elim (find_field k fs) [ none ↦ throws (out_of_range k) | some v ↦ ok v ]
at k _ = throws type_error

abbrev pub or_type_error {ℓ} : {A : Type ℓ} → Option A → Parsed A
or_type_error none = throws type_error
or_type_error (some a) = ok a

abbrev pub uint : ℕ → Json
uint n = number (int (pos n))

unfoldable pub resource_to_json : Resource → Json
resource_to_json r =
    object (field "cpu_core" (number (double r.cpu_core)) (field "mem_mb" (uint r.mem_mb) end))

unfoldable pub shard_to_json : Shard → Json
shard_to_json s =
    object (field "shard_id" (uint s.shard_id) (field "total_shards" (uint s.total_shards) end))

-- The initialiser list of `to_json`, in its order.
unfoldable pub to_json : Task → Json
unfolding resource_to_json shard_to_json
to_json t = object (
    field "task_id" (string t.task_id) (
      field "client_id" (string t.client_id) (
        field "priority" (uint t.priority) (
          field "state" (uint (state_code t.state)) (
            field "func_name" (string t.func_name) (
              field "func_params" t.func_params (
                field "required" (resource_to_json t.required) (
                  field "shard" (shard_to_json t.shard) (
                    field "timeout_ms" (uint t.timeout_ms) (
                      field "max_retry" (uint t.max_retry) (
                        field "retry_count" (uint t.retry_count) (
                          field "submit_ts" (number (int t.submit_ts)) (
                            field "start_ts" (number (int t.start_ts)) (
                              field "finish_ts" (number (int t.finish_ts)) (
                                field "result" t.result
                                  (field "error_msg" (string t.error_msg) end))))))))))))))))

module _ (g : Getters) where
  abbrev pub at_string : String → Json → Parsed String
  at_string k j = at k j >>= λ v. or_type_error (g.get_string v)

  abbrev pub at_uint : ℕ → String → Json → Parsed ℕ
  at_uint w k j = at k j >>= λ v. or_type_error (g.get_uint w v)

  abbrev pub at_int64 : String → Json → Parsed ℤ
  at_int64 k j = at k j >>= λ v. or_type_error (g.get_int64 v)

  abbrev pub at_double : String → Json → Parsed ℕ
  at_double k j = at k j >>= λ v. or_type_error (g.get_double v)

  unfoldable pub resource_from_json : Json → Parsed Resource
  resource_from_json j = do
    c ← at_double "cpu_core" j
    m ← at_uint 64 "mem_mb" j
    ok (record { cpu_core = c; mem_mb = m })

  unfoldable pub shard_from_json : Json → Parsed Shard
  shard_from_json j = do
    i ← at_uint 32 "shard_id" j
    n ← at_uint 32 "total_shards" j
    ok (record { shard_id = i; total_shards = n })

  -- `j.get<Task>()`: the members are read in order into a new task, which is lost if one throws.
  unfoldable pub from_json : Json → Parsed Task
  unfolding resource_from_json shard_from_json
  from_json j = do
    task_id ← at_string "task_id" j
    client_id ← at_string "client_id" j
    priority ← at_uint 32 "priority" j
    state ← at_uint 8 "state" j
    func_name ← at_string "func_name" j
    func_params ← at "func_params" j
    required ← at "required" j >>= resource_from_json
    shard ← at "shard" j >>= shard_from_json
    timeout_ms ← at_uint 32 "timeout_ms" j
    max_retry ← at_uint 32 "max_retry" j
    retry_count ← at_uint 32 "retry_count" j
    submit_ts ← at_int64 "submit_ts" j
    start_ts ← at_int64 "start_ts" j
    finish_ts ← at_int64 "finish_ts" j
    result ← at "result" j
    error_msg ← at_string "error_msg" j
    ok (record default_task {
      task_id = task_id;
      client_id = client_id;
      priority = priority;
      state = state_of_code state;
      func_name = func_name;
      func_params = func_params;
      required = required;
      shard = shard;
      timeout_ms = timeout_ms;
      max_retry = max_retry;
      retry_count = retry_count;
      submit_ts = submit_ts;
      start_ts = start_ts;
      finish_ts = finish_ts;
      result = result;
      error_msg = error_msg;
    })

-- The unsigned members are in the range of their C++ types.
pub record IsInRange (t : Task) : Type 0 where
  pub state : IsByte t.state
  pub priority : t.priority < 2 ^ 32
  pub timeout_ms : t.timeout_ms < 2 ^ 32
  pub max_retry : t.max_retry < 2 ^ 32
  pub retry_count : t.retry_count < 2 ^ 32
  pub shard_id : t.shard.shard_id < 2 ^ 32
  pub total_shards : t.shard.total_shards < 2 ^ 32
  pub mem_mb : t.required.mem_mb < 2 ^ 64
  pub submit_ts : IsInt64 t.submit_ts
  pub start_ts : IsInt64 t.start_ts
  pub finish_ts : IsInt64 t.finish_ts

state_code-lt : (s : TaskState) → IsByte s → state_code s < 2 ^ 8
unfolding state_code
state_code-lt TaskState.pending h = omega arith
state_code-lt TaskState.running h = omega arith
state_code-lt TaskState.success h = omega arith
state_code-lt TaskState.failed h = omega arith
state_code-lt TaskState.timeout h = omega arith
state_code-lt TaskState.cancelled h = omega arith
state_code-lt (TaskState.unnamed n) h = omega arith

module _ (g : Getters) (f : AreFaithful g) where
  open f use {string_back, uint_back, int64_back, double_back}

  resource_back :
      (r : Resource) → r.mem_mb < 2 ^ 64 → resource_from_json g (resource_to_json r) ≡ ok r
  unfolding resource_from_json resource_to_json at
  resource_back r h = simp (double_back, uint_back 64 r.mem_mb h)

  shard_back :
      (s : Shard)
      → s.shard_id < 2 ^ 32
      → s.total_shards < 2 ^ 32
      → shard_from_json g (shard_to_json s) ≡ ok s
  unfolding shard_from_json shard_to_json at
  shard_back s h k = simp (uint_back 32 s.shard_id h, uint_back 32 s.total_shards k)

  -- `from_json` after `to_json` gives a task back whose numbers are in the range of their C++ types,
  -- but for the cancellation flag, which is new and false. The library reads back what it stored.
  pub from_json-to_json :
      (t : Task) → IsInRange t → from_json g (to_json t) ≡ ok (record t { cancelled = false })
  unfolding from_json to_json at
  from_json-to_json t r = simp (
    string_back,
    uint_back 32 t.priority r.priority,
    uint_back 8 (state_code t.state) (state_code-lt t.state r.state),
    uint_back 32 t.timeout_ms r.timeout_ms,
    uint_back 32 t.max_retry r.max_retry,
    uint_back 32 t.retry_count r.retry_count,
    uint_back 32 t.shard.shard_id r.shard_id,
    uint_back 32 t.shard.total_shards r.total_shards,
    uint_back 64 t.required.mem_mb r.mem_mb,
    int64_back t.submit_ts r.submit_ts,
    int64_back t.start_ts r.start_ts,
    int64_back t.finish_ts r.finish_ts,
    double_back,
    state_of_code-state_code t.state r.state,
  )
