-- ===== src/Server/Life.antt =====
-- FcopyService::start, wait, notify and stop of src/server/service.cpp, between signal_handler and the
-- end of main in src/server/fcopy_server.cpp.
pub mod Running
pub mod Stopping
use fcopy.Base.{ℕ, zero, suc, ◌+◌, List, [], ◌∷◌, Bool, true, false, if◌then◌else◌}
use fcopy.Base.Int.{ℤ, pos, negsuc, is_zero}
use fcopy.Server.Main.{FcopyServiceParams, is_empty}

-- Where main stands: before start; in start, when the server listens, and when `cli` and `mng` are
-- made; behind start; in wait; behind wait; at its end, with its status.
pub data Phase : Type 0 where
  created listening connected started blocked leaving : Phase
  ended : ℤ → Phase

-- The members of the service, as far as they are made; `servers` counts those that listen.
pub record Life : Type 0 where
  pub phase : Phase
  pub running : Bool
  pub servers : ℕ
  pub cli : Bool
  pub mng : Bool

abbrev pub new_service : Life
new_service = record { phase = created; running = false; servers = 0; cli = false; mng = false }

-- signal_handler calls notify: running.wait in the main thread returns when `running` is false.
abbrev pub notify : Life → Life
notify s = record s { running = false }

-- FcopyService::stop, and the end of main.
abbrev pub stop : Life → Life
stop s = record s { phase = ended (pos 0); servers = 0 }

module _ (params : FcopyServiceParams) (server_start : ℤ) where
  -- start up to the call of server->start, whose result is `server_start`.
  unfoldable pub start_server : Life → Life
  start_server s =
      if is_empty params.default_partition
      then record s { phase = ended (negsuc 0) }
      else if is_zero server_start
      then record s { phase = listening; servers = s.servers + 1 }
      else record s { phase = ended server_start }

  -- The next step of main. A wait for a running service does not return.
  unfoldable pub advance_at : Phase → Life → Life
  unfolding start_server
  advance_at created s = start_server s
  advance_at listening s = record s { phase = connected; cli = true; mng = true }
  advance_at connected s = record s { phase = started; running = true }
  advance_at started s =
      if s.running then record s { phase = blocked } else record s { phase = leaving }
  advance_at blocked s = if s.running then s else record s { phase = leaving }
  advance_at leaving s = stop s
  advance_at (ended status) s = s

  unfoldable pub advance : Life → Life
  unfolding advance_at
  advance s = advance_at s.phase s

-- A step of main, or a signal.
pub data Event : Type 0 where
  step signal : Event

module _ (params : FcopyServiceParams) (server_start : ℤ) where
  unfoldable pub run : List Event → Life → Life
  unfolding advance
  run [] s = s
  run (step ∷ events) s = run events (advance params server_start s)
  run (signal ∷ events) s = run events (notify s)
