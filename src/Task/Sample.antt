-- ===== src/Task/Sample.antt =====
-- utils.cpp: an instance of what the conversions take from the libraries, for runs at concrete inputs.
use Prim.Native.String.{String}
use tiny_reactor.Base.{ℕ, zero, suc, ◌≡◌, refl, ap, sym, ◌∙◌}
use tiny_reactor.Task.Proto.{Library}
use tiny_reactor.Task.RoundTrip.{KeysDiffer}

-- Keys that differ: the index written in unary, and integers that all become the double 0.
abbrev unary : ℕ → String
unary zero = ""
unary (suc n) = String.◌∷◌ "1" (unary n)

size : String → ℕ
size String.[] = 0
size (String.◌∷◌ c s) = suc (size s)

size-unary : (n : ℕ) → size (unary n) ≡ n
unfolding size
size-unary zero = refl
size-unary (suc n) = ap suc (size-unary n)

abbrev pub sample_library : Library
sample_library = record { double_of_int = λ _. 0; index_key = unary }

pub keys_differ : KeysDiffer sample_library
keys_differ i j e = sym (size-unary i) ∙ ap size e ∙ size-unary j
