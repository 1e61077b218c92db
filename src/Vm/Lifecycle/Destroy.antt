-- ===== src/Vm/Lifecycle/Destroy.antt =====
-- What `Destroy` does.
use bhyve_mcp.Common.{
  Option, ◌∷◌, String, ◌≡◌, refl, none, some, Bool, true, false, arith, deadlock, ◌>>=◌,
}
use bhyve_mcp.Common.Dict
use bhyve_mcp.Host.{Host, History, Reply, good, bad, vm_destroy, vm_open, remove}
use bhyve_mcp.Vmmapi.{Handle}
use bhyve_mcp.Vm.Types.{Vm, World, Manager, is_running, unlocked}
use bhyve_mcp.Vm.Lifecycle.{stop, stop_locked, destroy, destroy_locked, config_path}
use bhyve_mcp.Vm.Lifecycle.Access.{
  manager_after, world_after, succeeded, with_entry, holding, IsFree, get_found, with_vm_free,
  with_vm_held,
}

-- A call of `Stop` waits for the mutex of its machine.
stop_held :
    (h : Host) (name : String) (v : Vm) (w : World)
    → w.manager.mu ≡ unlocked
    → Dict.lookup name w.manager.vms ≡ some v
    → v.locked ≡ true
    → stop h name w ≡ deadlock
unfolding stop
stop_held h name v w mu entry lock =
    rw (get_found name w mu v entry, stop, ◌>>=◌)
      (with_vm_held name v w (stop_locked h name v) entry lock)

-- The manager after `Destroy`: without the machine, or, if the file stays, with the machine whose
-- handle is gone.
abbrev pub destroyed : Bool → String → Vm → Manager → Manager
destroyed true name v m = record m { vms = Dict.erase name m.vms }
destroyed false name v m = with_entry name (record v { vmmapi_vm = none; locked = false }) m

-- The calls of `Destroy` that take the machine from the kernel: `vm_destroy` on the handle of the
-- machine, or, if it has none, on one that is opened for it.
abbrev pub destroyed_handle : Host → String → History → Option Handle → History
destroyed_handle h name past (some v) = elim v.ctx [ none ↦ past | some c ↦ vm_destroy c ∷ past ]
destroyed_handle h name past none = elim (h.vm_open past name) [
  | none ↦ vm_open name ∷ past
  | some c ↦ vm_destroy c ∷ vm_open name ∷ past
]

-- The file is gone, be it that it was not there.
abbrev pub is_gone : Reply (Unit {0}) → Bool
is_gone (good _) = true
is_gone (bad f) = f.not_exist

module _ (h : Host) (name : String) (v : Vm) (w : World) (free : IsFree name v w) where
  -- `Destroy` of a running machine waits for ever for the mutex that it holds itself.
  pub destroy_running : is_running v.state ≡ true → destroy h name w ≡ deadlock
  unfolding destroy
  destroy_running r =
      rw (get_found name w free.mu v free.entry, destroy, ◌>>=◌)
        (rw (with_vm_free name v w (destroy_locked h name v) free.entry free.lock) (
          ground (
            arith,
            stop_held h name (record v { locked = true })
                (holding name (record v { locked = true }) w) free.mu
                (Dict.lookup-insert_self name (record v { locked = true }) w.manager.vms) refl,
          )))

  -- `Destroy` of a machine that does not run comes back, with no lock held: on success the machine is
  -- out of the map, after an error it is there without a handle; no
  -- other machine and nothing else of the manager changes.
  pub destroy_idle :
      is_running v.state ≡ false
      → let o = destroy h name w in
        manager_after o ≡ some (destroyed (succeeded o) name v w.manager)
  unfolding destroy
  destroy_idle r =
      rw (get_found name w free.mu v free.entry, destroy, ◌>>=◌)
        (rw (with_vm_free name v w (destroy_locked h name v) free.entry free.lock) (
          grind (
            arith, free.mu, Dict.lookup-insert_self, Dict.modify-insert_self,
            Dict.erase-insert_self, Dict.modify-erase,
          )))

  -- `Destroy` of a machine that does not run calls `vm_destroy` on its handle, or on one that it opens
  -- if the machine has none, then removes its file, and makes no other call. It succeeds exactly when
  -- the file is removed or was not there: the machine is then out of the map, and is otherwise there
  -- without a handle. No lock is held after it, and nothing else of the manager changes.
  pub destroy_idle-calls :
      is_running v.state ≡ false
      → let past = destroyed_handle h name w.history v.vmmapi_vm in
        let b = is_gone (h.remove past (config_path name w)) in
        let o = destroy h name w in
        (world_after o
          ≡ some (record {
            manager = destroyed b name v w.manager;
            history = remove (config_path name w) ∷ past;
          }))
        × (succeeded o ≡ b)
  unfolding destroy
  destroy_idle-calls r =
      rw (get_found name w free.mu v free.entry, destroy, ◌>>=◌)
        (rw (with_vm_free name v w (destroy_locked h name v) free.entry free.lock) (
          grind (
            arith, free.mu, Dict.lookup-insert_self, Dict.modify-insert_self,
            Dict.erase-insert_self, Dict.modify-erase,
          )))
