-- ===== src/Task/Reading.antt =====
-- src/common/include/task.hpp: `from_json` reads as the table of the members says.
use Prim.Native.String.{String}
use tiny_reactor.Base.{ℕ, ◌≡◌, refl, ap, ◌∙◌}
use tiny_reactor.Task.JsonValue.{Json}
use tiny_reactor.Task.JsonCodec.{
  Parsed, ok, throws, ◌>>=◌, Getters, at, or_type_error, from_json, resource_from_json,
  shard_from_json,
}
use tiny_reactor.Task.Schema.{
  Shape, text, int64, double, anything, uint, members, Members, done, member, resource_shape,
  shard_shape, task_members, Verdict, forget, check, check_members,
}

-- A chain whose end reads `last` whatever its first part gave.
forget-bind {ℓ κ} :
    {A : Type ℓ} {B : Type κ} (first : Parsed A) (next : A → Parsed B) (last : Verdict)
    → ((a : A) → forget (next a) ≡ last)
    → forget (first >>= next) ≡ (forget first >>= λ _. last)
forget-bind (throws why) next last h = refl
forget-bind (ok value) next last h = h value

-- What is read off `j` is in order if and only if the members are, with the same error.
record Reads {ℓ} (g : Getters) (j : Json) {A : Type ℓ} (ms : Members) (p : Parsed A) : Type 0 where
  same : forget p ≡ check_members g ms j

module _ {g : Getters} {j : Json} where
  ends {ℓ} : {A : Type ℓ} {a : A} → Reads g j done (ok a)
  unfolding check
  ends = record { same = refl }

  -- A member that is read at a type, and one that is taken as it is; then the rest.
  reads {ℓ κ} :
      {A : Type ℓ} {B : Type κ} {k : String} {ms : Members} {next : A → Parsed B} (s : Shape)
      (get : Json → Parsed A)
      → ((v : Json) → forget (get v) ≡ check g s v)
      → ((a : A) → Reads g j ms (next a))
      → Reads g j (member k s ms) ((at k j >>= get) >>= next)
  unfolding check
  reads {k} {ms} {next} s get read rest = record { same = by_value (at k j) }
    where
      by_value :
          (p : Parsed Json)
          → forget ((p >>= get) >>= next) ≡ ((p >>= check g s) >>= λ _. check_members g ms j)
      by_value (throws why) = refl
      by_value (ok v) =
          forget-bind (get v) next (check_members g ms j) (λ a. (rest a).same)
          ∙ ap (λ p. p >>= λ _. check_members g ms j) (read v)

  takes {κ} :
      {B : Type κ} {k : String} {ms : Members} {next : Json → Parsed B}
      → ((v : Json) → Reads g j ms (next v))
      → Reads g j (member k anything ms) (at k j >>= next)
  unfolding check
  takes {k} {ms} {next} rest = record { same = by_value (at k j) }
    where
      by_value :
          (p : Parsed Json)
          → forget (p >>= next) ≡ ((p >>= check g anything) >>= λ _. check_members g ms j)
      by_value (throws why) = refl
      by_value (ok v) = (rest v).same

module _ (g : Getters) where
  string_read : (v : Json) → forget (or_type_error (g.get_string v)) ≡ check g text v
  unfolding check
  string_read v = refl

  uint_read : (w : ℕ) (v : Json) → forget (or_type_error (g.get_uint w v)) ≡ check g (uint w) v
  unfolding check
  uint_read w v = refl

  int64_read : (v : Json) → forget (or_type_error (g.get_int64 v)) ≡ check g int64 v
  unfolding check
  int64_read v = refl

  double_read : (v : Json) → forget (or_type_error (g.get_double v)) ≡ check g double v
  unfolding check
  double_read v = refl

  all_read {ℓ} :
      {A : Type ℓ} {ms : Members} {p : Parsed A} {j : Json}
      → Reads g j ms p
      → forget p ≡ check g (members ms) j
  unfolding check
  all_read r = r.same

  resource_read : (j : Json) → forget (resource_from_json g j) ≡ check g resource_shape j
  unfolding resource_from_json
  resource_read j =
      all_read (reads double _ double_read λ c. reads (uint 64) _ (uint_read 64) λ m. ends)

  shard_read : (j : Json) → forget (shard_from_json g j) ≡ check g shard_shape j
  unfolding shard_from_json
  shard_read j =
      all_read (reads (uint 32) _ (uint_read 32) λ i. reads (uint 32) _ (uint_read 32) λ n. ends)

  -- `from_json` succeeds on a value if and only if the check of it against the table of the members
  -- does, and otherwise throws what the check reports: the first member that is missing or has another
  -- type, in the order of the table, or that the value is no object.
  pub from_json-check : (j : Json) → forget (from_json g j) ≡ check g (members task_members) j
  unfolding from_json
  from_json-check j = all_read (
      reads text _ string_read λ task_id. reads text _ string_read λ client_id.
        reads (uint 32) _ (uint_read 32) λ priority. reads (uint 8) _ (uint_read 8) λ state.
          reads text _ string_read λ func_name. takes λ func_params.
            reads resource_shape _ resource_read λ required. reads shard_shape _ shard_read λ shard.
              reads (uint 32) _ (uint_read 32) λ timeout_ms.
                reads (uint 32) _ (uint_read 32) λ max_retry.
                  reads (uint 32) _ (uint_read 32) λ retry_count.
                    reads int64 _ int64_read λ submit_ts. reads int64 _ int64_read λ start_ts.
                      reads int64 _ int64_read
                        λ finish_ts. takes λ result. reads text _ string_read λ error_msg. ends)
