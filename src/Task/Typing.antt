-- ===== src/Task/Typing.antt =====
-- src/common/include/task.hpp: `from_json` reads the JSON values that have the type of a task.
use Prim.Native.String.{String}
use tiny_reactor.Base.{◌≡◌, ◌≢◌, ◌↔◌, refl, subst, sym, ◌∙◌, Option, none, some, arith}
use tiny_reactor.Task.JsonValue.{Json, Fields, object}
use tiny_reactor.Task.{Task}
use tiny_reactor.Task.JsonCodec.{
  Parsed, ok, throws, ◌>>=◌, Getters, at, find_field, or_type_error, from_json,
}
use tiny_reactor.Task.Schema.{
  Shape, text, int64, double, anything, uint, members, Members, done, member, task_members, Verdict,
  forget, check, check_members, Conforms, is_text, is_int64, is_double, is_uint, is_anything,
  has_members, HasMembers, has_none, has_member,
}
use tiny_reactor.Task.Reading.{from_json-check}

was_read {ℓ} : {A : Type ℓ} (o : Option A) → forget (or_type_error o) ≡ ok tt → o ≢ none
was_read none h q = cc
was_read (some a) h q = cc

reads_something {ℓ} : {A : Type ℓ} (o : Option A) → o ≢ none → forget (or_type_error o) ≡ ok tt
reads_something none h = absurd (h refl)
reads_something (some a) h = refl

parts :
    (p : Parsed Json) (f : Json → Verdict)
    → (p >>= f) ≡ ok tt
    → (v : Json) × (p ≡ ok v) × (f v ≡ ok tt)
parts (throws why) f h = cc
parts (ok v) f h = (v, refl, h)

IsAt : String → Json → Json → Type 0
IsAt k j v = (fs : Fields) × (j ≡ object fs) × (find_field k fs ≡ some v)

at-object : (k : String) (j v : Json) → at k j ≡ ok v → IsAt k j v
unfolding at IsAt
at-object k (object fs) v h = (fs, refl, ground arith)
at-object k j v h = cc

found-at :
    (k : String) (fs : Fields) (v : Json) → find_field k fs ≡ some v → at k (object fs) ≡ ok v
unfolding at
found-at k fs v h = rw (h, at) refl

module _ (g : Getters) where
  has_found :
      {k : String} {s : Shape} (ms : Members) {j v : Json}
      → IsAt k j v
      → Conforms g s v
      → HasMembers g ms j
      → HasMembers g (member k s ms) j
  unfolding IsAt
  has_found {k} {s} ms (fs, same, found) here there =
      subst (HasMembers g (member k s ms)) (sym same)
        (has_member found here (subst (HasMembers g ms) same there))

  -- The parts of a check of a member.
  both : (p q : Verdict) → (p >>= λ _. q) ≡ ok tt → (p ≡ ok tt) × (q ≡ ok tt)
  both (throws why) q h = cc
  both (ok tt) q h = (refl, h)

  mutual
    unfolding check

    check_sound : (s : Shape) (j : Json) → check g s j ≡ ok tt → Conforms g s j
    check_sound text j h = is_text (was_read (g.get_string j) h)
    check_sound int64 j h = is_int64 (was_read (g.get_int64 j) h)
    check_sound double j h = is_double (was_read (g.get_double j) h)
    check_sound (uint w) j h = is_uint (was_read (g.get_uint w j) h)
    check_sound anything j h = is_anything
    check_sound (members ms) j h = has_members (check_members_sound ms j h)

    check_members_sound :
        (ms : Members) (j : Json) → check_members g ms j ≡ ok tt → HasMembers g ms j
    check_members_sound done j h = has_none
    check_members_sound (member k s ms) j h =
        let (here, rest) = both (at k j >>= check g s) (check_members g ms j) h in
        let (v, read, typed) = parts (at k j) (check g s) here in
        has_found ms (at-object k j v read) (check_sound s v typed) (check_members_sound ms j rest)

  mutual
    unfolding check

    check_complete : {s : Shape} {j : Json} → Conforms g s j → check g s j ≡ ok tt
    check_complete (is_text h) = reads_something _ h
    check_complete (is_int64 h) = reads_something _ h
    check_complete (is_double h) = reads_something _ h
    check_complete (is_uint h) = reads_something _ h
    check_complete is_anything = refl
    check_complete (has_members h) = check_members_complete h

    check_members_complete :
        {ms : Members} {j : Json} → HasMembers g ms j → check_members g ms j ≡ ok tt
    check_members_complete has_none = refl
    check_members_complete (has_member {k} {s} {ms} {fs} {v} found here there) =
        subst (λ p. ((p >>= check g s) >>= λ _. check_members g ms (object fs)) ≡ ok tt)
          (sym (found-at k fs v found)) (rw (check_complete here) (check_members_complete there))

  succeeds : (j : Json) → ((t : Task) × (from_json g j ≡ ok t)) ↔ (forget (from_json g j) ≡ ok tt)
  succeeds j = by_result (from_json g j)
    where
      by_result : (p : Parsed Task) → ((t : Task) × (p ≡ ok t)) ↔ (forget p ≡ ok tt)
      by_result (throws why) = (λ r. cc, λ h. cc)
      by_result (ok t) = (λ r. refl, λ h. (t, refl))

  -- `from_json` succeeds on the JSON values that have the type of a task, which are the objects with
  -- all sixteen members, each of a type that the library reads as that of the member, and on no other.
  pub from_json-Conforms :
      (j : Json) → ((t : Task) × (from_json g j ≡ ok t)) ↔ Conforms g (members task_members) j
  from_json-Conforms j = (
    λ r. check_sound _ j (sym (from_json-check g j) ∙ (succeeds j).0 r),
    λ c. (succeeds j).1 (from_json-check g j ∙ check_complete c),
  )
