-- ===== src/Hazptr/Runs.antt =====
-- hazard_pointer.hpp: inversion of calls and runs that return.
use tiny_reactor.Base.{◌≡◌, refl, List, ◌∷◌}
use tiny_reactor.Hazptr.{HazPtrDomain, Outcome, done, stuck, aborted, ◌>>=◌, Call, step, run}

pub done-injective : {x y : HazPtrDomain} → done x ≡ done y → x ≡ y
done-injective h = cc

pub >>=-eq-done :
    (o : Outcome HazPtrDomain) (f : HazPtrDomain → Outcome HazPtrDomain) {e : HazPtrDomain}
    → (o >>= f) ≡ done e
    → (m : HazPtrDomain) × (o ≡ done m) × (f m ≡ done e)
>>=-eq-done (done m) f h = (m, refl, h)
>>=-eq-done stuck f h = cc
>>=-eq-done aborted f h = cc

pub run-cons :
    (c : Call) (cs : List Call) (d e : HazPtrDomain)
    → run (c ∷ cs) d ≡ done e
    → (m : HazPtrDomain) × (step c d ≡ done m) × (run cs m ≡ done e)
unfolding run
run-cons c cs d e h = >>=-eq-done (step c d) (run cs) h
