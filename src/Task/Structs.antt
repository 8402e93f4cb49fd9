-- ===== src/Task/Structs.antt =====
-- utils.cpp: laws of the fields of an object and of the entries of a `Struct`.
use Prim.Native.String.{String}
use tiny_reactor.Base.{◌≡◌, refl, ap, Bool, true, false, not, ◌&&◌, ◌||◌, arith}
use text.Mathlib.Text.{◌==◌ as str_eq}
use text.Mathlib.TextEquality.{eq_iff}
use tiny_reactor.Task.JsonValue.{Json, Fields, object, end, field, has, put, append}
use tiny_reactor.Task.Proto.{Value, Struct, empty, entry, put_entry, assign}
use tiny_reactor.Task.Normal.{object_or_null}

unfoldable pub has_entry : String → Struct → Bool
has_entry k empty = false
has_entry k (entry j v s) = str_eq j k || has_entry k s

unfoldable pub append_entries : Struct → Struct → Struct
append_entries empty t = t
append_entries (entry k v s) t = entry k v (append_entries s t)

pub append_entries-empty : (s : Struct) → append_entries s empty ≡ s
unfolding append_entries
append_entries-empty empty = refl
append_entries-empty (entry k v s) = ap (entry k v) (append_entries-empty s)

pub append_entries_assoc :
    (s t u : Struct) → append_entries (append_entries s t) u ≡ append_entries s (append_entries t u)
unfolding append_entries
append_entries_assoc empty t u = refl
append_entries_assoc (entry k v s) t u = ap (entry k v) (append_entries_assoc s t u)

pub has_entry-append :
    (k : String) (s t : Struct)
    → has_entry k (append_entries s t) ≡ (has_entry k s || has_entry k t)
unfolding append_entries has_entry
has_entry-append k empty t = refl
has_entry-append k (entry j v s) t = ground (arith, has_entry-append k s t)

pub put_entry-absent :
    (k : String) (v : Value) (s : Struct)
    → has_entry k s ≡ false
    → put_entry k v s ≡ append_entries s (entry k v empty)
unfolding has_entry put_entry append_entries
put_entry-absent k v empty h = refl
put_entry-absent k v (entry j w s) h = ground (arith, put_entry-absent k v s)

-- The same for the fields of an object.
pub append-end : (fs : Fields) → append fs end ≡ fs
unfolding append
append-end end = refl
append-end (field k v fs) = ap (field k v) (append-end fs)

pub append_assoc : (fs gs hs : Fields) → append (append fs gs) hs ≡ append fs (append gs hs)
unfolding append
append_assoc end gs hs = refl
append_assoc (field k v fs) gs hs = ap (field k v) (append_assoc fs gs hs)

pub has-append : (k : String) (fs gs : Fields) → has k (append fs gs) ≡ (has k fs || has k gs)
unfolding append has
has-append k end gs = refl
has-append k (field j v fs) gs = ground (arith, has-append k fs gs)

pub put-absent :
    (k : String) (v : Json) (fs : Fields)
    → has k fs ≡ false
    → put k v fs ≡ append fs (field k v end)
unfolding has put append
put-absent k v end h = refl
put-absent k v (field j w fs) h = ground (arith, put-absent k v fs)

pub assign-absent :
    (k : String) (v : Json) (fs : Fields)
    → has k fs ≡ false
    → assign k v (object_or_null fs) ≡ object_or_null (append fs (field k v end))
unfolding assign object_or_null append
assign-absent k v end h = refl
assign-absent k v (field j w fs) h = ap object (put-absent k v (field j w fs) h)

-- The keys of `s` are distinct, and none of them is in `fs`.
unfoldable pub fresh_for : Struct → Fields → Bool
unfolding has_entry
fresh_for empty fs = true
fresh_for (entry k v s) fs = not (has k fs) && not (has_entry k s) && fresh_for s fs

pub fresh_for-append :
    (k : String) (v : Json) (s : Struct) (fs : Fields)
    → has_entry k s ≡ false
    → fresh_for s fs ≡ true
    → fresh_for s (append fs (field k v end)) ≡ true
unfolding fresh_for has
fresh_for-append k v empty fs h f = refl
fresh_for-append k v (entry j w s) fs h f =
    ground
      (arith, has-append j fs (field k v end), fresh_for-append k v s fs, eq_iff j k, eq_iff k j)
