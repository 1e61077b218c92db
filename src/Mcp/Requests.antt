-- ===== src/Mcp/Requests.antt =====
-- Every request comes back and leaves well-formed machines, but for one kind.
use bhyve_mcp.Common.{String, ◌≡◌, refl, arith, deadlock}
use bhyve_mcp.Vm.Invariant.{WellFormed}
use bhyve_mcp.Vm.Requests.{destroy_vm, perform, perform-DestroysRunning}
use bhyve_mcp.Mcp.Types.{Env, ServerWorld, machine_world}
use bhyve_mcp.Mcp.VmHandlers.{handle_destroy_vm}
use bhyve_mcp.Mcp.StoreHandlers.{handle_list_isos, handle_list_templates}
use bhyve_mcp.Mcp.SwitchHandlers.{handle_host_info}
use bhyve_mcp.Mcp.Present.{IsWhole}
use bhyve_mcp.Mcp.Dispatch.{Method, handle}
use bhyve_mcp.Mcp.Settling.{ServerSettles}
use bhyve_mcp.Mcp.Settling.MachineRequests.{
  Hangs, create-ServerSettles, start-ServerSettles, stop-ServerSettles, state-ServerSettles,
  status-ServerSettles, list-ServerSettles, destroy-ServerSettles,
}
use bhyve_mcp.Mcp.Settling.OtherRequests.{
  list_isos-ServerSettles, list_templates-ServerSettles, create_disk-ServerSettles,
  delete_disk-ServerSettles, resize_disk-ServerSettles, clone_disk-ServerSettles,
  list_disks-ServerSettles, create_switch-ServerSettles, delete_switch-ServerSettles,
  list_switches-ServerSettles, delete_iso-ServerSettles,
}

module _ {V P : Type 0} (e : Env V P) where
  -- On well-formed machines, with no nil map or pointer, every request comes back, with an answer or with an error, and leaves
  -- well-formed machines, unless it is to destroy a machine that runs.
  pub handle-ServerSettles :
      (m : Method) (name : String) (params : P) (w : ServerWorld V)
      → WellFormed w.server.vm_manager
      → IsWhole w.server
      → ¬ Hangs e m params w
      → ServerSettles (handle e m name params w)
  unfolding handle handle_list_isos handle_list_templates handle_host_info
  handle-ServerSettles Method.vm_create name params w wf whole n =
      create-ServerSettles e name params w wf
  handle-ServerSettles Method.vm_start name params w wf whole n =
      start-ServerSettles e name params w wf
  handle-ServerSettles Method.vm_stop name params w wf whole n =
      stop-ServerSettles e name params w wf
  handle-ServerSettles Method.vm_state name params w wf whole n =
      state-ServerSettles e name params w wf
  handle-ServerSettles Method.vm_list name params w wf whole n =
      list-ServerSettles e name params w wf
  handle-ServerSettles Method.vm_status name params w wf whole n =
      status-ServerSettles e name params w wf
  handle-ServerSettles Method.disk_create name params w wf whole n =
      create_disk-ServerSettles e name params w wf
  handle-ServerSettles Method.disk_delete name params w wf whole n =
      delete_disk-ServerSettles e name params w wf
  handle-ServerSettles Method.disk_resize name params w wf whole n =
      resize_disk-ServerSettles e name params w wf
  handle-ServerSettles Method.disk_clone name params w wf whole n =
      clone_disk-ServerSettles e name params w wf
  handle-ServerSettles Method.disk_list name params w wf whole n =
      list_disks-ServerSettles e name params w wf
  handle-ServerSettles Method.iso_delete name params w wf whole n =
      delete_iso-ServerSettles e name params w wf whole
  handle-ServerSettles Method.switch_list name params w wf whole n =
      list_switches-ServerSettles e name params w wf
  handle-ServerSettles Method.switch_create name params w wf whole n =
      create_switch-ServerSettles e name params w wf
  handle-ServerSettles Method.switch_delete name params w wf whole n =
      delete_switch-ServerSettles e name params w wf
  handle-ServerSettles Method.vm_destroy name params w wf whole n =
      destroy-ServerSettles e name params w wf n
  handle-ServerSettles Method.iso_list name params w wf whole n =
      list_isos-ServerSettles e name params w wf whole
  handle-ServerSettles Method.template_list name params w wf whole n =
      list_templates-ServerSettles e name params w wf whole
  handle-ServerSettles Method.host_info name params w wf whole n = (w, refl, wf)
  handle-ServerSettles Method.unknown name params w wf whole n = (w, refl, wf)

  -- A request to destroy a machine that runs never comes back.
  pub handle-Hangs :
      (m : Method) (name : String) (params : P) (w : ServerWorld V)
      → WellFormed w.server.vm_manager
      → Hangs e m params w
      → handle e m name params w ≡ deadlock
  unfolding handle handle_destroy_vm perform
  handle-Hangs Method.vm_destroy name params w wf (k, d, r) =
      let o = perform-DestroysRunning e.host e.yaml (destroy_vm k) (machine_world w) wf r in
      rw d (ground (arith, o))
  handle-Hangs Method.vm_create name params w wf d = absurd d
  handle-Hangs Method.vm_start name params w wf d = absurd d
  handle-Hangs Method.vm_stop name params w wf d = absurd d
  handle-Hangs Method.vm_state name params w wf d = absurd d
  handle-Hangs Method.vm_list name params w wf d = absurd d
  handle-Hangs Method.vm_status name params w wf d = absurd d
  handle-Hangs Method.disk_create name params w wf d = absurd d
  handle-Hangs Method.disk_delete name params w wf d = absurd d
  handle-Hangs Method.disk_resize name params w wf d = absurd d
  handle-Hangs Method.disk_clone name params w wf d = absurd d
  handle-Hangs Method.disk_list name params w wf d = absurd d
  handle-Hangs Method.iso_list name params w wf d = absurd d
  handle-Hangs Method.iso_delete name params w wf d = absurd d
  handle-Hangs Method.template_list name params w wf d = absurd d
  handle-Hangs Method.switch_list name params w wf d = absurd d
  handle-Hangs Method.switch_create name params w wf d = absurd d
  handle-Hangs Method.switch_delete name params w wf d = absurd d
  handle-Hangs Method.host_info name params w wf d = absurd d
  handle-Hangs Method.unknown name params w wf d = absurd d
