-- ===== src/Task/Transfer.antt =====
-- utils.cpp: a task after `TaskToProto` and `TaskFromProto`.
use tiny_reactor.Base.{◌≤◌, ◌<◌, ◌≡◌, refl, ap, ◌∙◌, Bool, true, false, ◌&&◌, some, arith}
use tiny_reactor.Task.JsonValue.{
  Json, Fields, int, double, null, boolean, number, string, array, object, end, field,
}
use tiny_reactor.Task.Normal.{object_or_null, normal, normal_fields, normal_document, is_distinct}
use tiny_reactor.Task.Proto.{Library, task_to_proto, task_from_proto}
use tiny_reactor.Task.RoundTrip.{KeysDiffer, struct_to_json-json_to_struct}
use tiny_reactor.Task.{
  Task, TaskState, pending, running, success, failed, timeout, cancelled, unnamed, state_code,
  state_of_code,
}

-- A state as the program makes it: one with a name, or the cast of another 8-bit number.
abbrev pub IsByte : TaskState → Type 0
IsByte (unnamed n) = (6 ≤ n) × (n < 256)
IsByte _ = Unit

pub state_of_code-state_code : (s : TaskState) → IsByte s → state_of_code (state_code s) ≡ s
unfolding state_of_code state_code
state_of_code-state_code pending h = refl
state_of_code-state_code running h = refl
state_of_code-state_code success h = refl
state_of_code-state_code failed h = refl
state_of_code-state_code timeout h = refl
state_of_code-state_code cancelled h = refl
state_of_code-state_code (unnamed n) h = ground arith

-- A task after the trip: the cancellation flag is a new one, and both JSON members are normal.
abbrev pub transferred : Library → Task → Task
transferred lib t = record t {
  cancelled = false;
  func_params = normal_document lib t.func_params;
  result = normal_document lib t.result;
}

-- `TaskFromProto` after `TaskToProto` keeps every member of a task but three: the cancellation flag
-- is new and false, and the parameters and the result are in normal form. The state is one that the
-- program makes, and no object in the parameters or the result has a key twice.
pub task_from_proto-task_to_proto :
    (lib : Library) (t : Task)
    → KeysDiffer lib
    → IsByte t.state
    → is_distinct t.func_params ≡ true
    → is_distinct t.result ≡ true
    → task_from_proto (task_to_proto lib t) ≡ transferred lib t
unfolding task_from_proto task_to_proto
task_from_proto-task_to_proto lib t keys s p r = λ i. record (transferred lib t) {
  state = state_of_code-state_code t.state s i;
  func_params = struct_to_json-json_to_struct lib t.func_params keys p i;
  result = struct_to_json-json_to_struct lib t.result keys r i;
}

-- A value that a `Struct` can hold without loss: no null, no array, no integer, no empty object.
unfoldable mutual
  pub is_exact : Json → Bool
  is_exact null = false
  is_exact (boolean b) = true
  is_exact (number (int z)) = false
  is_exact (number (double d)) = true
  is_exact (string s) = true
  is_exact (array xs) = false
  is_exact (object end) = false
  is_exact (object (field k v fs)) = is_exact v && are_exact fs

  pub are_exact : Fields → Bool
  are_exact end = true
  are_exact (field k v fs) = is_exact v && are_exact fs

-- A document may also be null.
unfoldable pub is_exact_document : Json → Bool
unfolding is_exact
is_exact_document null = true
is_exact_document (object fs) = is_exact (object fs)
is_exact_document _ = false

and_two : (a b : Bool) → (a && b) ≡ true → (a ≡ true) × (b ≡ true)
and_two a b h = ground arith

mutual
  unfolding is_exact normal

  normal-exact : (lib : Library) (v : Json) → is_exact v ≡ true → normal lib v ≡ some v
  normal-exact lib null h = cc
  normal-exact lib (boolean b) h = refl
  normal-exact lib (number (int z)) h = cc
  normal-exact lib (number (double d)) h = refl
  normal-exact lib (string s) h = refl
  normal-exact lib (array xs) h = cc
  normal-exact lib (object end) h = cc
  normal-exact lib (object (field k v fs)) h =
      ap (λ gs. some (object_or_null gs)) (normal_fields-exact lib (field k v fs) h)

  normal_fields-exact :
      (lib : Library) (fs : Fields) → are_exact fs ≡ true → normal_fields lib fs ≡ fs
  normal_fields-exact lib end h = refl
  normal_fields-exact lib (field k v fs) h =
      let (one, rest) = and_two (is_exact v) (are_exact fs) h in
      rw (normal-exact lib v one) (ap (field k v) (normal_fields-exact lib fs rest))

normal_document-exact :
    (lib : Library) (j : Json) → is_exact_document j ≡ true → normal_document lib j ≡ j
unfolding normal_document is_exact_document
normal_document-exact lib null h = refl
normal_document-exact lib (boolean b) h = cc
normal_document-exact lib (number n) h = cc
normal_document-exact lib (string s) h = cc
normal_document-exact lib (array xs) h = cc
normal_document-exact lib (object end) h = cc
normal_document-exact lib (object (field k v fs)) h =
    ap object_or_null (normal_fields-exact lib (field k v fs) h)

-- A task whose parameters and result are null or objects that hold, at every depth, only Booleans,
-- doubles, texts and objects that are not empty, each with distinct keys, and whose state is one
-- that the program makes, comes back from its protobuf message as it was, with a new flag.
pub task_transfer_exact :
    (lib : Library) (t : Task)
    → KeysDiffer lib
    → IsByte t.state
    → is_distinct t.func_params ≡ true
    → is_distinct t.result ≡ true
    → is_exact_document t.func_params ≡ true
    → is_exact_document t.result ≡ true
    → task_from_proto (task_to_proto lib t) ≡ record t { cancelled = false }
task_transfer_exact lib t keys s p r ep er = task_from_proto-task_to_proto lib t keys s p r ∙ λ i.
    record t {
      cancelled = false;
      func_params = normal_document-exact lib t.func_params ep i;
      result = normal_document-exact lib t.result er i;
    }
