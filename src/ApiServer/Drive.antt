-- ===== src/ApiServer/Drive.antt =====
-- api_server.cpp, `DriveCompletionQueue`: which completions a queue's thread handles.
use tiny_reactor.Base.{ℕ, ◌≡◌, refl, ap, Bool, Option, none, some, List, [], ◌∷◌, ◌++◌, map}
use tiny_reactor.ApiServer.{drive_completion_queue, drain_queue}

-- The completions that carry a tag.
abbrev pub tagged : List (Option ℕ × Bool) → List (ℕ × Bool)
tagged [] = []
tagged ((none, _) ∷ rs) = tagged rs
tagged ((some tag, ok) ∷ rs) = (tag, ok) ∷ tagged rs

drain_queue-tagged :
    (rs : List (Option ℕ × Bool)) (rest : List (Option (Option ℕ × Bool)))
    → drain_queue (map some rs ++ none ∷ rest) ≡ tagged rs
unfolding drain_queue
drain_queue-tagged [] rest = refl
drain_queue-tagged ((none, ok) ∷ rs) rest = drain_queue-tagged rs rest
drain_queue-tagged ((some tag, ok) ∷ rs) rest =
    ap (λ es. (tag, ok) ∷ es) (drain_queue-tagged rs rest)

-- A queue's thread calls `Proceed` for each completion with a tag, in order, until `Next` has given
-- false for the second time, and then stops.
pub drive_completion_queue-tagged :
    (first second : List (Option ℕ × Bool)) (rest : List (Option (Option ℕ × Bool)))
    → drive_completion_queue (map some first ++ none ∷ (map some second ++ none ∷ rest))
      ≡ tagged first ++ tagged second
unfolding drive_completion_queue
drive_completion_queue-tagged [] second rest = drain_queue-tagged second rest
drive_completion_queue-tagged ((none, ok) ∷ first) second rest =
    drive_completion_queue-tagged first second rest
drive_completion_queue-tagged ((some tag, ok) ∷ first) second rest =
    ap (λ es. (tag, ok) ∷ es) (drive_completion_queue-tagged first second rest)
