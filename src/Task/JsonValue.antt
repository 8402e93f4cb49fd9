-- ===== src/Task/JsonValue.antt =====
-- The values of `nlohmann::json`, as far as the program looks into them, and objects as lists of
-- fields in the order of iteration.
use Prim.Native.String.{String}
use tiny_reactor.Base.{ℕ, Bool, false, ◌||◌, if◌then◌else◌}
use tiny_reactor.Base.Int.{ℤ}
use text.Mathlib.Text.{◌==◌ as str_eq}

-- A number is an integer or a double, given by its bit pattern.
pub data Number : Type 0 where
  int : ℤ → Number
  double : ℕ → Number

mutual
  pub data Json : Type 0 where
    null : Json
    boolean : Bool → Json
    number : Number → Json
    string : String → Json
    array : Items → Json
    object : Fields → Json

  pub data Items : Type 0 where
    nil : Items
    cons : Json → Items → Items

  pub data Fields : Type 0 where
    end : Fields
    field : String → Json → Fields → Fields

-- `j[k] = v` on an object.
unfoldable pub put : String → Json → Fields → Fields
put k v end = field k v end
put k v (field j w fs) = if str_eq j k then field j v fs else field j w (put k v fs)

unfoldable pub has : String → Fields → Bool
has k end = false
has k (field j w fs) = str_eq j k || has k fs

unfoldable pub append : Fields → Fields → Fields
append end gs = gs
append (field k v fs) gs = field k v (append fs gs)
