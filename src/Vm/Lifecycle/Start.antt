-- ===== src/Vm/Lifecycle/Start.antt =====
-- What `Start` does.
use bhyve_mcp.Common.{
  ℕ, ℤ, is_zero, add_ℕ, String, ◌<>◌, ◌≡◌, Option, none, some, true, false, arith, ◌∷◌, ◌>>=◌,
  if◌then◌else◌, List,
}
use bhyve_mcp.Common.Dict
use bhyve_mcp.Host.{Host, History, Reply, good, bad, vm_open, vm_setup_memory}
use bhyve_mcp.Vmmapi.{Handle}
use bhyve_mcp.Config.{Config}
use bhyve_mcp.Vm.Types.{Vm, World, is_running, running, error}
use bhyve_mcp.Vm.Command.{vnc_enabled, command_args, words}
use bhyve_mcp.Vm.Lifecycle.{start, start_locked, mem_size}
use bhyve_mcp.Vm.Lifecycle.Access.{
  manager_after, succeeded, error_of, with_entry, IsFree, get_found, with_vm_free,
}

abbrev opened : String → ℕ → Option Handle
opened name c = some (record { ctx = some c; name = name })

-- The machine after `Start`, from what libvmmapi and the system answered.
abbrev pub started_vm : Option ℕ → ℤ → Reply ℕ → String → Vm → Vm
started_vm none ret reply name v = record v { state = error; locked = false }
started_vm (some c) ret (good pid) name v =
    let handle = opened name c in
    if is_zero ret
    then record v { state = running; process = some pid; vmmapi_vm = handle; locked = false }
    else record v { state = error; vmmapi_vm = handle; locked = false }
started_vm (some c) ret (bad f) name v = record v {
  state = error;
  vmmapi_vm = opened name c;
  locked = false;
}

-- A VNC port is taken when the command line of a machine with a framebuffer is built.
abbrev pub port_after : Config → Vm → Option ℕ → ℤ → ℤ → ℤ
port_after cfg v none ret port = port
port_after cfg v (some c) ret port =
    if is_zero ret then if vnc_enabled cfg v.config then add_ℕ port 1 else port else port

-- The three answers, to the calls in the order in which `Start` makes them.
module _ (h : Host) (name : String) (v : Vm) (w : World) where
  abbrev pub opens : Option ℕ
  opens = h.vm_open w.history name

  abbrev past_open : History
  past_open = vm_open name ∷ w.history

  abbrev pub sets_up : ℤ
  sets_up = h.vm_setup_memory past_open opens mem_size

  abbrev pub command : List String
  command = "bhyve" ∷ words (command_args w.manager.config v w.manager.vnc_port_next)

  abbrev pub spawns : Reply ℕ
  spawns = h.spawn (vm_setup_memory opens mem_size ∷ past_open) command

module _ (h : Host) (name : String) (v : Vm) (w : World) (free : IsFree name v w) where
  -- `Start` of a running machine is refused and changes nothing.
  pub start_running :
      is_running v.state ≡ true
      → let o = start h name w in
        (manager_after o ≡ some w.manager) × (error_of o ≡ some ("VM is already running: " <> name))
  unfolding start
  start_running r =
      rw (get_found name w free.mu v free.entry, start, ◌>>=◌)
        (rw (with_vm_free name v w (start_locked h name v) free.entry free.lock)
          (grind (arith, Dict.modify-insert_self, Dict.insert_found)))

  -- `Start` of a machine that does not run comes back, with no lock held. The machine is then what the
  -- answers to the three calls make of it: running with its process and handle if all succeed, else
  -- in the state error, with the handle if there was one. A VNC port is used up when the memory was
  -- set up and the machine has a framebuffer. `Start` reports success exactly when the machine runs,
  -- and no other machine changes.
  pub start_idle :
      is_running v.state ≡ false
      → let v' = started_vm (opens h name v w) (sets_up h name v w) (spawns h name v w) name v in
        let o = start h name w in
        (manager_after o
          ≡ some (record (with_entry name v' w.manager) {
            vnc_port_next =
                port_after w.manager.config v
                  (opens h name v w)
                  (sets_up h name v w)
                  w.manager.vnc_port_next;
          }))
        × (succeeded o ≡ is_running v'.state)
  unfolding start
  start_idle r =
      rw (get_found name w free.mu v free.entry, start, ◌>>=◌)
        (rw (with_vm_free name v w (start_locked h name v) free.entry free.lock)
          (grind (arith, Dict.modify-insert_self)))
