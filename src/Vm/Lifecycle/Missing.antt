-- ===== src/Vm/Lifecycle/Missing.antt =====
-- A name that no machine has: every method answers with the same error and changes nothing.
use bhyve_mcp.Common.{String, ◌<>◌, ◌≡◌, none, arith, fail, ◌>>=◌}
use bhyve_mcp.Common.Dict
use bhyve_mcp.Host.{Host}
use bhyve_mcp.Vm.Types.{World, unlocked}
use bhyve_mcp.Vm.Lifecycle.{get, start, stop, destroy, get_state}

module _ (name : String) (w : World) (mu : w.manager.mu ≡ unlocked)
    (missing : Dict.lookup name w.manager.vms ≡ none) where
  pub get_missing : get name w ≡ fail ("VM not found: " <> name) w
  unfolding get
  get_missing = ground arith

  module _ (h : Host) where
    pub start_missing : start h name w ≡ fail ("VM not found: " <> name) w
    unfolding start
    start_missing = rw (get_missing, start, ◌>>=◌)

    pub stop_missing : stop h name w ≡ fail ("VM not found: " <> name) w
    unfolding stop
    stop_missing = rw (get_missing, stop, ◌>>=◌)

    pub destroy_missing : destroy h name w ≡ fail ("VM not found: " <> name) w
    unfolding destroy
    destroy_missing = rw (get_missing, destroy, ◌>>=◌)

    pub get_state_missing : get_state h name w ≡ fail ("VM not found: " <> name) w
    unfolding get_state
    get_state_missing = rw (get_missing, get_state, ◌>>=◌)
