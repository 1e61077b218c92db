-- ===== src/Mcp/Settling/MachineRequests.antt =====
-- Requests about machines come back, but for one kind.
use bhyve_mcp.Common.{String, ◌≡◌, ok, Bool-cases, inl, inr}
use bhyve_mcp.Vm.Types.{is_running}
use bhyve_mcp.Vm.Lifecycle
use bhyve_mcp.Vm.Loading
use bhyve_mcp.Vm.Loading.Asking.{list-Settles, get_status-Settles}
use bhyve_mcp.Vm.Invariant.{WellFormed}
use bhyve_mcp.Vm.Requests.{
  create-Settles, start-Settles, stop-Settles, destroy-Settles, get_state-Settles, DestroysRunning,
  destroy_vm,
}
use bhyve_mcp.Mcp.Types.{Env, ServerWorld, machine_world, on_machines}
use bhyve_mcp.Mcp.VmHandlers.{
  handle_create_vm, handle_start_vm, handle_stop_vm, handle_destroy_vm, handle_get_vm_state,
  handle_list_vms, handle_get_vm_status,
}
use bhyve_mcp.Mcp.Dispatch.{Method, handle}
use bhyve_mcp.Mcp.Settling.{ServerSettles, on_machines-Settles, handler-Settles, after_call}

-- The request is to destroy a machine that runs.
abbrev pub Hangs : {V P : Type 0} → Env V P → Method → P → ServerWorld V → Type 0
Hangs e Method.vm_destroy params w =
    (name : String) × (e.decoder.vm_name params ≡ ok (record { name = name }))
    × DestroysRunning (destroy_vm name) (machine_world w)
Hangs e _ params w = ⊥

module _ {V P : Type 0} (e : Env V P) (name : String) (params : P) (w : ServerWorld V)
    (wf : WellFormed w.server.vm_manager) where
  pub create-ServerSettles : ServerSettles (handle e Method.vm_create name params w)
  unfolding handle handle_create_vm
  create-ServerSettles =
      handler-Settles (e.decoder.create_vm params)
        (λ p. on_machines (Lifecycle.create e.host e.yaml p.name p.cpu p.memory)) _ w wf
        (λ p _.
          on_machines-Settles (Lifecycle.create e.host e.yaml p.name p.cpu p.memory) w
            (create-Settles e.host p.name (machine_world w) wf e.yaml p.cpu p.memory))

  pub start-ServerSettles : ServerSettles (handle e Method.vm_start name params w)
  unfolding handle handle_start_vm
  start-ServerSettles =
      handler-Settles (e.decoder.vm_name params) (λ p. on_machines (Lifecycle.start e.host p.name))
        _ w wf
        (λ p _.
          on_machines-Settles (Lifecycle.start e.host p.name) w
            (start-Settles e.host p.name (machine_world w) wf))

  pub stop-ServerSettles : ServerSettles (handle e Method.vm_stop name params w)
  unfolding handle handle_stop_vm
  stop-ServerSettles =
      handler-Settles (e.decoder.vm_name params) (λ p. on_machines (Lifecycle.stop e.host p.name)) _
        w wf
        (λ p _.
          on_machines-Settles (Lifecycle.stop e.host p.name) w
            (stop-Settles e.host p.name (machine_world w) wf))

  pub state-ServerSettles : ServerSettles (handle e Method.vm_state name params w)
  unfolding handle handle_get_vm_state
  state-ServerSettles =
      handler-Settles (e.decoder.vm_name params)
        (λ p. on_machines (Lifecycle.get_state e.host p.name)) _ w wf
        (λ p _.
          on_machines-Settles (Lifecycle.get_state e.host p.name) w
            (get_state-Settles e.host p.name (machine_world w) wf))

  pub status-ServerSettles : ServerSettles (handle e Method.vm_status name params w)
  unfolding handle handle_get_vm_status
  status-ServerSettles =
      handler-Settles (e.decoder.vm_name params) (λ p. on_machines (Loading.get_status p.name)) _ w
        wf
        (λ p _.
          on_machines-Settles (Loading.get_status p.name) w
            (get_status-Settles p.name (machine_world w) wf))

  pub list-ServerSettles : ServerSettles (handle e Method.vm_list name params w)
  unfolding handle handle_list_vms
  list-ServerSettles =
      after_call (on_machines Loading.list w) _ w
        (on_machines-Settles Loading.list w (list-Settles (machine_world w) wf))

  pub destroy-ServerSettles :
      ¬ Hangs e Method.vm_destroy params w
      → ServerSettles (handle e Method.vm_destroy name params w)
  unfolding handle handle_destroy_vm
  destroy-ServerSettles n =
      handler-Settles (e.decoder.vm_name params)
        (λ p. on_machines (Lifecycle.destroy e.host p.name)) _ w wf
        (λ p d. on_machines-Settles (Lifecycle.destroy e.host p.name) w (
          destroy-Settles e.host p.name (machine_world w) wf (λ v f.
            elim (Bool-cases (is_running v.state)) [
              | inl r ↦ absurd (n (p.name, d, (v, f, r)))
              | inr r ↦ r
            ])))
