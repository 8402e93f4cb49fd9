-- ===== src/Task/JsonKeys.antt =====
-- src/common/include/task.hpp: which keys `from_json` needs.
use Prim.Native.String.{String}
use tiny_reactor.Base.{◌≢◌, ◌≡◌, none, List, [], ◌∷◌, All}
use tiny_reactor.Task.JsonValue.{Fields, object}
use tiny_reactor.Task.{Task}
use tiny_reactor.Task.JsonCodec.{ok, Getters, find_field, from_json}
use tiny_reactor.Task.Schema.{
  Members, done, member, task_members, has_members, HasMembers, has_none, has_member,
}
use tiny_reactor.Task.Typing.{from_json-Conforms}

abbrev pub keys : Members → List String
keys done = []
keys (member k s ms) = k ∷ keys ms

members-found :
    (g : Getters) (ms : Members) (fs : Fields)
    → HasMembers g ms (object fs)
    → All (λ k. find_field k fs ≢ none) (keys ms)
members-found g done fs has_none = tt
members-found g (member k s ms) fs (has_member found here there) =
    ((λ gone. cc), members-found g ms fs there)

-- `from_json` succeeds on an object only if it has all sixteen keys: it throws if one is missing.
pub from_json_needs :
    (g : Getters) (fs : Fields) (t : Task)
    → from_json g (object fs) ≡ ok t
    → All (λ k. find_field k fs ≢ none) (keys task_members)
from_json_needs g fs t h = elim ((from_json-Conforms g (object fs)).0 (t, h)) [
  | has_members h ↦ members-found g task_members fs h
]
