-- ===== src/Task/Schema.antt =====
-- src/common/include/task.hpp: what `from_json` asks of a JSON value, written as a table of the
-- members and their types, with a check of a value against it and the typing that it decides.
use Prim.Native.String.{String}
use tiny_reactor.Base.{ℕ, ◌≡◌, ◌≢◌, none, some}
use tiny_reactor.Task.JsonValue.{Json, Fields, object}
use tiny_reactor.Task.JsonCodec.{Parsed, ok, throws, ◌>>=◌, Getters, at, find_field, or_type_error}

mutual
  pub data Shape : Type 0 where
    text int64 double anything : Shape
    uint : ℕ → Shape
    members : Members → Shape

  pub data Members : Type 0 where
    done : Members
    member : String → Shape → Members → Members

-- The members of the three structs, in their order.
abbrev pub resource_shape : Shape
resource_shape = members (member "cpu_core" double (member "mem_mb" (uint 64) done))

abbrev pub shard_shape : Shape
shard_shape = members (member "shard_id" (uint 32) (member "total_shards" (uint 32) done))

abbrev pub task_members : Members
task_members = member "task_id" text (
    member "client_id" text (
      member "priority" (uint 32) (
        member "state" (uint 8) (
          member "func_name" text (
            member "func_params" anything (
              member "required" resource_shape (
                member "shard" shard_shape (
                  member "timeout_ms" (uint 32) (
                    member "max_retry" (uint 32) (
                      member "retry_count" (uint 32) (
                        member "submit_ts" int64 (
                          member "start_ts" int64 (
                            member "finish_ts" int64
                              (member "result" anything (member "error_msg" text done)))))))))))))))

abbrev pub Verdict : Type 0
Verdict = Parsed (Unit {0})

-- Whether something was read, or why it was not.
abbrev pub forget {ℓ} : {A : Type ℓ} → Parsed A → Verdict
forget (ok value) = ok tt
forget (throws why) = throws why

module _ (g : Getters) where
  unfoldable mutual
    pub check : Shape → Json → Verdict
    check text j = forget (or_type_error (g.get_string j))
    check int64 j = forget (or_type_error (g.get_int64 j))
    check double j = forget (or_type_error (g.get_double j))
    check (uint w) j = forget (or_type_error (g.get_uint w j))
    check anything j = ok tt
    check (members ms) j = check_members ms j

    pub check_members : Members → Json → Verdict
    check_members done j = ok tt
    check_members (member k s ms) j = (at k j >>= check s) >>= λ _. check_members ms j

  -- The values of a shape: each member is there and has its shape.
  mutual
    pub data Conforms : Shape → Json → Type 0 where
      is_text : {j : Json} → g.get_string j ≢ none → Conforms text j
      is_int64 : {j : Json} → g.get_int64 j ≢ none → Conforms int64 j
      is_double : {j : Json} → g.get_double j ≢ none → Conforms double j
      is_uint : {w : ℕ} {j : Json} → g.get_uint w j ≢ none → Conforms (uint w) j
      is_anything : {j : Json} → Conforms anything j
      has_members : {ms : Members} {j : Json} → HasMembers ms j → Conforms (members ms) j

    pub data HasMembers : Members → Json → Type 0 where
      has_none : {j : Json} → HasMembers done j
      has_member :
          {k : String} {s : Shape} {ms : Members} {fs : Fields} {v : Json}
          → find_field k fs ≡ some v
          → Conforms s v
          → HasMembers ms (object fs)
          → HasMembers (member k s ms) (object fs)
