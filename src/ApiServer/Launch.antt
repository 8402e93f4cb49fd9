-- ===== src/ApiServer/Launch.antt =====
-- main.cpp: how the program comes to wait for a signal, and that it ends when one comes.
use tiny_reactor.Base.{ℕ, zero, suc, ◌≡◌, ◌≢◌, ◌<◌, true, false, none, some, List, [], ◌∷◌}
use tiny_reactor.ApiServer.Program.{polls, Surroundings, Program, ProgramEvent, goes_on}
use tiny_reactor.ApiServer.Exit.{Started}

-- `n` steps of the main thread.
unfoldable pub steps : ℕ → List ProgramEvent
steps zero = []
steps (suc n) = goes_on ∷ steps n

-- The program waits for a signal, with a server that runs.
record Waits (p : Program) : Type 0 where
  stage : p.stage ≡ polls
  calm : p.g_shutdown ≡ false
  handling : p.handles_signals ≡ true
  out : p.in_shutdown ≡ false
  started : Started p

-- The surroundings let the program start: the variables are not set or hold numbers, the machine has a
-- processor, and the library starts the server.
pub record IsHospitable (w : Surroundings) : Type 0 where
  pub port : w.dts_port ≢ some none
  pub contexts : w.dts_initial_context ≢ some none
  pub processors : 0 < w.processors
  pub starts : w.starts ≡ true
