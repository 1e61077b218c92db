-- ===== src/Vm/Lifecycle/Stop.antt =====
-- What `Stop` does.
use bhyve_mcp.Common.{
  ℕ, Option, ◌∷◌, String, ◌<>◌, ◌≡◌, none, some, Bool, true, false, arith, ◌>>=◌,
}
use bhyve_mcp.Common.Dict
use bhyve_mcp.Host.{Host, History, good, bad, wait, signal, kill, vm_close}
use bhyve_mcp.Vmmapi.{Handle}
use bhyve_mcp.Vm.Types.{Vm, World, is_running, stopped, error}
use bhyve_mcp.Vm.Lifecycle.{stop, stop_locked}
use bhyve_mcp.Vm.Lifecycle.Access.{
  manager_after, world_after, succeeded, error_of, with_entry, IsFree, get_found, with_vm_free,
}

-- The machine after `Stop`: stopped and its handle gone, or in error if the process could not be
-- killed.
abbrev pub stopped_vm : Bool → Vm → Vm
stopped_vm true v = record v { state = stopped; vmmapi_vm = none; locked = false }
stopped_vm false v = record v { state = error; locked = false }

-- What `Stop` makes of the process of a machine: whether it has got rid of it, and the calls. The
-- process gets the signal 15, is killed if that is refused, and is waited for unless both are.
abbrev pub ended_process : Host → History → Option ℕ → Bool × History
ended_process h past none = (true, past)
ended_process h past (some pid) = elim (h.signal past pid 15) [
  | good _ ↦ (true, wait pid ∷ signal pid 15 ∷ past)
  | bad _ ↦ elim (h.kill (signal pid 15 ∷ past) pid) [
    | good _ ↦ (true, wait pid ∷ kill pid ∷ signal pid 15 ∷ past)
    | bad _ ↦ (false, kill pid ∷ signal pid 15 ∷ past)
  ]
]

-- An open handle is closed with `vm_close`, if the process has ended.
abbrev pub closed_handle : Bool → Option Handle → History → History
closed_handle false v past = past
closed_handle true none past = past
closed_handle true (some v) past = elim v.ctx [ none ↦ past | some c ↦ vm_close c ∷ past ]

module _ (h : Host) (name : String) (v : Vm) (w : World) (free : IsFree name v w) where
  -- `Stop` of a running machine comes back, with no lock held: on success the machine is stopped and
  -- has no handle, after an error it is in the state error and keeps what it had; no other machine
  -- and nothing else of the manager changes.
  pub stop_running :
      is_running v.state ≡ true
      → let o = stop h name w in
        manager_after o ≡ some (with_entry name (stopped_vm (succeeded o) v) w.manager)
  unfolding stop
  stop_running r =
      rw (get_found name w free.mu v free.entry, stop, ◌>>=◌)
        (rw (with_vm_free name v w (stop_locked h name v) free.entry free.lock)
          (grind (arith, Dict.modify-insert_self)))

  -- `Stop` of a machine that does not run is refused and changes nothing.
  pub stop_idle :
      is_running v.state ≡ false
      → let o = stop h name w in
        (manager_after o ≡ some w.manager) × (error_of o ≡ some ("VM is not running: " <> name))
  unfolding stop
  stop_idle r =
      rw (get_found name w free.mu v free.entry, stop, ◌>>=◌)
        (rw (with_vm_free name v w (stop_locked h name v) free.entry free.lock)
          (grind (arith, Dict.modify-insert_self, Dict.insert_found)))

  -- `Stop` of a running machine sends its process signal 15, kills it if that is refused, waits for it
  -- unless both are refused, and then closes its handle; it makes no other call. It succeeds unless
  -- both are refused: the machine is then stopped and has no handle, and is in the state error and
  -- keeps what it had otherwise. No lock is held after it, and nothing else of the manager changes.
  pub stop_running-calls :
      is_running v.state ≡ true
      → let (b, past) = ended_process h w.history v.process in
        let o = stop h name w in
        (world_after o
          ≡ some (record {
            manager = with_entry name (stopped_vm b v) w.manager;
            history = closed_handle b v.vmmapi_vm past;
          }))
        × (succeeded o ≡ b)
  unfolding stop
  stop_running-calls r =
      rw (get_found name w free.mu v free.entry, stop, ◌>>=◌)
        (rw (with_vm_free name v w (stop_locked h name v) free.entry free.lock)
          (grind (arith, Dict.modify-insert_self)))
