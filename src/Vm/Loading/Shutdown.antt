-- ===== src/Vm/Loading/Shutdown.antt =====
-- What `Shutdown` does.
use bhyve_mcp.Common.{
  String, ◌≡◌, refl, none, Bool, true, false, ◌||◌, [], ◌∷◌, arith, done, deadlock, if◌then◌else◌,
}
use bhyve_mcp.Common.Dict.{Dict}
use bhyve_mcp.Host.{Host}
use bhyve_mcp.Vm.Types.{Vm, World, is_running, unlocked, set_mu}
use bhyve_mcp.Vm.Lifecycle.{get, stop}
use bhyve_mcp.Vm.Loading.{stop_all, shutdown}

abbrev pub any_running : Dict Vm → Bool
any_running [] = false
any_running ((_, vm) ∷ vms) = is_running vm.state || any_running vms

-- `Get` waits for a manager that is being written.
stop_while_written :
    (h : Host) (name : String) (w : World) → w.manager.mu.writer ≡ true → stop h name w ≡ deadlock
unfolding stop get
stop_while_written h name w e = ground arith

stop_all_while_written :
    (h : Host) (vms : Dict Vm) (w : World)
    → w.manager.mu.writer ≡ true
    → stop_all h vms none w ≡ (if any_running vms then deadlock else done tt w)
unfolding stop_all
stop_all_while_written h [] w e = refl
stop_all_while_written h ((name, vm) ∷ vms) w e =
    ground (arith, stop_while_written h name w e, stop_all_while_written h vms w e)

-- With no lock held, `Shutdown` never comes back if any machine runs: it holds the mutex of the
-- manager when `Stop` looks the machine up. If none runs it comes back and has done nothing.
pub shutdown_lem :
    (h : Host) (w : World)
    → w.manager.mu ≡ unlocked
    → shutdown h w ≡ (if any_running w.manager.vms then deadlock else done tt w)
unfolding shutdown
shutdown_lem h w mu = rw mu (
    ground (
      arith,
      mu,
      stop_all_while_written h w.manager.vms (set_mu (record { writer = true; readers = 0 }) w)
          refl,
    ))
