-- ===== src/Mcp/Keeping.antt =====
-- What each request leaves alone.
use bhyve_mcp.Common.{
  List, none, Option, String, ◌≡◌, Bool, true, false, some, ok, err, Result, arith, Exec, Outcome,
  done, fail, deadlock, pure, if◌then◌else◌, ◌>>=◌,
}
use bhyve_mcp.Host.{History}
use bhyve_mcp.Vm.Types.{World}
use bhyve_mcp.Vm.Lifecycle
use bhyve_mcp.Vm.Lifecycle.Access.{manager_after}
use bhyve_mcp.Vm.Loading
use bhyve_mcp.Vm.Loading.Asking.{list_kept, get_status_kept}
use bhyve_mcp.Vm.Invariant.{WellFormed}
use bhyve_mcp.Disk
use bhyve_mcp.Disk.Listing
use bhyve_mcp.Net
use bhyve_mcp.Store.Records
use bhyve_mcp.Store.Records.{RecordWorld, IsoRecord}
use bhyve_mcp.Mcp.Types.{
  Env, ServerWorld, on_machines, on_host, on_disks, on_isos, machine_world, iso_world, decoded,
}
use bhyve_mcp.Mcp.VmHandlers.{
  handle_create_vm, handle_start_vm, handle_stop_vm, handle_destroy_vm, handle_get_vm_state,
  handle_get_vm_status, handle_list_vms,
}
use bhyve_mcp.Mcp.DiskHandlers.{
  handle_create_disk, handle_delete_disk, handle_resize_disk, handle_clone_disk, handle_list_disks,
  type_or_raw,
}
use bhyve_mcp.Mcp.StoreHandlers.{
  all_present, followed, handle_delete_iso, handle_list_isos, handle_list_templates,
}
use bhyve_mcp.Mcp.SwitchHandlers.{
  handle_create_switch, handle_delete_switch, handle_list_switches, handle_host_info,
}
use bhyve_mcp.Mcp.Dispatch.{Method, handle}

abbrev pub writes_machines : Method → Bool
writes_machines Method.vm_create = true
writes_machines Method.vm_start = true
writes_machines Method.vm_stop = true
writes_machines Method.vm_destroy = true
writes_machines Method.vm_state = true
writes_machines _ = false

abbrev pub writes_isos : Method → Bool
writes_isos Method.iso_delete = true
writes_isos _ = false

-- The parts of the server that a request does not write are as before.
pub record Keeps {V : Type 0} (machines isos : Bool) (w t : ServerWorld V) : Type 0 where
  pub vm_manager :
      t.server.vm_manager ≡ (if machines then t.server.vm_manager else w.server.vm_manager)
  pub iso_store : t.server.iso_store ≡ (if isos then t.server.iso_store else w.server.iso_store)
  pub state_store :
      t.server.state_store ≡ (if isos then t.server.state_store else w.server.state_store)
  pub disk_manager : t.server.disk_manager ≡ w.server.disk_manager
  pub template_store : t.server.template_store ≡ w.server.template_store
  pub config : t.server.config ≡ w.server.config

-- The predicate holds of the state that a call leaves, if it comes back.
abbrev pub Leaves : {S A : Type 0} → (S → Type 0) → Outcome S A → Type 0
Leaves P (done a t) = P t
Leaves P (fail x t) = P t
Leaves P deadlock = Unit

module _ {V : Type 0} (w : ServerWorld V) where
  same : (machines isos : Bool) → Keeps machines isos w w
  same true true = ground arith
  same true false = ground arith
  same false true = ground arith
  same false false = ground arith

  host-Keeps :
      {A : Type 0} (o : Outcome History A)
      → Leaves (Keeps false false w) (on_host {V = V} (λ _. o) w)
  host-Keeps (done a u) = ground arith
  host-Keeps (fail x u) = ground arith
  host-Keeps deadlock = tt

  machines-Keeps :
      {A : Type 0} (o : Outcome World A)
      → Leaves (Keeps true false w) (on_machines {V = V} (λ _. o) w)
  machines-Keeps (done a u) = ground arith
  machines-Keeps (fail x u) = ground arith
  machines-Keeps deadlock = tt

  asking-Keeps :
      {A : Type 0} (o : Outcome World A)
      → manager_after o ≡ some w.server.vm_manager
      → Leaves (Keeps false false w) (on_machines {V = V} (λ _. o) w)
  asking-Keeps (done a u) e = ground arith
  asking-Keeps (fail x u) e = ground arith
  asking-Keeps deadlock e = tt

  isos-Keeps :
      {A : Type 0} (o : Outcome (RecordWorld V (Option IsoRecord)) A)
      → Leaves (Keeps false true w) (on_isos (λ _. o) w)
  isos-Keeps (done a u) = ground arith
  isos-Keeps (fail x u) = ground arith
  isos-Keeps deadlock = tt

  followed-Leaves :
      {R B : Type 0} (P : ServerWorld V → Type 0) (k : List R → B) (o : Option (List R))
      → P w
      → Leaves P ((followed o >>= λ rs. pure (k rs)) w)
  followed-Leaves P k none s = tt
  followed-Leaves P k (some rs) s = s

  call-Leaves :
      {A B : Type 0} (P : ServerWorld V → Type 0) (o : Outcome (ServerWorld V) A) (k : A → B)
      → Leaves P o
      → Leaves P (((λ _. o) >>= λ b. pure (k b)) w)
  call-Leaves P (done a u) k s = s
  call-Leaves P (fail x u) k s = s
  call-Leaves P deadlock k s = s

  pub handler-Leaves :
      {A B C : Type 0} (P : ServerWorld V → Type 0) (r : Result A)
      (call : A → Exec (ServerWorld V) B) (k : A → B → C)
      → P w
      → ((p : A) → Leaves P (call p w))
      → Leaves P ((decoded r >>= λ p. call p >>= λ b. pure (k p b)) w)
  handler-Leaves P (ok p) call k h s = call-Leaves P (call p w) (k p) (s p)
  handler-Leaves P (err x) call k h s = h

-- On well-formed machines, of a request that comes back: only the five requests vm/create, vm/start, vm/stop, vm/destroy and
-- vm/state write the machines, only iso/delete writes the ISO store and the state store, and no
-- request writes another part of the server. Errors are included.
pub handle-Keeps :
    {V P : Type 0} (e : Env V P) (m : Method) (name : String) (params : P) (w : ServerWorld V)
    → WellFormed w.server.vm_manager
    → Leaves (Keeps (writes_machines m) (writes_isos m) w) (handle e m name params w)
unfolding handle handle_create_vm handle_start_vm handle_stop_vm handle_destroy_vm
    handle_get_vm_state handle_get_vm_status handle_list_vms handle_create_disk handle_delete_disk
    handle_resize_disk handle_clone_disk handle_list_disks handle_delete_iso handle_list_isos
    handle_list_templates handle_create_switch handle_delete_switch handle_list_switches
    handle_host_info
handle-Keeps e Method.vm_create name params w wf =
    handler-Leaves w (Keeps true false w) (e.decoder.create_vm params)
      (λ p. on_machines (Lifecycle.create e.host e.yaml p.name p.cpu p.memory)) _
      (same w true false)
      (λ p.
        machines-Keeps w (Lifecycle.create e.host e.yaml p.name p.cpu p.memory (machine_world w)))
handle-Keeps e Method.vm_start name params w wf =
    handler-Leaves w (Keeps true false w) (e.decoder.vm_name params)
      (λ p. on_machines (Lifecycle.start e.host p.name)) _ (same w true false)
      (λ p. machines-Keeps w (Lifecycle.start e.host p.name (machine_world w)))
handle-Keeps e Method.vm_stop name params w wf =
    handler-Leaves w (Keeps true false w) (e.decoder.vm_name params)
      (λ p. on_machines (Lifecycle.stop e.host p.name)) _ (same w true false)
      (λ p. machines-Keeps w (Lifecycle.stop e.host p.name (machine_world w)))
handle-Keeps e Method.vm_destroy name params w wf =
    handler-Leaves w (Keeps true false w) (e.decoder.vm_name params)
      (λ p. on_machines (Lifecycle.destroy e.host p.name)) _ (same w true false)
      (λ p. machines-Keeps w (Lifecycle.destroy e.host p.name (machine_world w)))
handle-Keeps e Method.vm_state name params w wf =
    handler-Leaves w (Keeps true false w) (e.decoder.vm_name params)
      (λ p. on_machines (Lifecycle.get_state e.host p.name)) _ (same w true false)
      (λ p. machines-Keeps w (Lifecycle.get_state e.host p.name (machine_world w)))
handle-Keeps e Method.vm_status name params w wf =
    handler-Leaves w (Keeps false false w) (e.decoder.vm_name params)
      (λ p. on_machines (Loading.get_status p.name)) _ (same w false false)
      (λ p.
        asking-Keeps w (Loading.get_status p.name (machine_world w))
          (get_status_kept p.name (machine_world w) wf))
handle-Keeps e Method.vm_list name params w wf =
    call-Leaves w (Keeps false false w) (on_machines Loading.list w) _
      (asking-Keeps w (Loading.list (machine_world w)) (list_kept (machine_world w) wf))
handle-Keeps e Method.disk_create name params w wf =
    handler-Leaves w (Keeps false false w) (e.decoder.create_disk params)
      (λ p. on_disks (λ m. Disk.create e.host m p.name p.size (type_or_raw p.disk_type))) _
      (same w false false)
      (λ p. host-Keeps w (
        Disk.create e.host w.server.disk_manager p.name p.size (type_or_raw p.disk_type) w.history))
handle-Keeps e Method.disk_delete name params w wf =
    handler-Leaves w (Keeps false false w) (e.decoder.create_disk params)
      (λ p. on_disks (λ m. Disk.delete e.host m p.name (type_or_raw p.disk_type))) _
      (same w false false)
      (λ p.
        host-Keeps w
          (Disk.delete e.host w.server.disk_manager p.name (type_or_raw p.disk_type) w.history))
handle-Keeps e Method.disk_resize name params w wf =
    handler-Leaves w (Keeps false false w) (e.decoder.resize_disk params)
      (λ p. on_disks (λ m. Disk.resize e.host m p.name p.size (type_or_raw p.disk_type))) _
      (same w false false)
      (λ p. host-Keeps w (
        Disk.resize e.host w.server.disk_manager p.name p.size (type_or_raw p.disk_type) w.history))
handle-Keeps e Method.disk_clone name params w wf =
    handler-Leaves w (Keeps false false w) (e.decoder.clone_disk params)
      (λ p. on_disks (λ m. Disk.clone e.host m p.source p.dest (type_or_raw p.disk_type))) _
      (same w false false)
      (λ p. host-Keeps w (
        Disk.clone e.host w.server.disk_manager p.source p.dest (type_or_raw p.disk_type)
          w.history))
handle-Keeps e Method.disk_list name params w wf =
    call-Leaves w (Keeps false false w) (on_disks (λ d. Listing.list e.host d) w) _
      (host-Keeps w (Listing.list e.host w.server.disk_manager w.history))
handle-Keeps e Method.iso_list name params w wf =
    followed-Leaves w (Keeps false false w) _ (all_present (Records.list w.server.iso_store))
      (same w false false)
handle-Keeps e Method.iso_delete name params w wf =
    handler-Leaves w (Keeps false true w) (e.decoder.vm_name params)
      (λ p. on_isos (Records.delete e.isos e.host e.json p.name)) _ (same w false true)
      (λ p. isos-Keeps w (Records.delete e.isos e.host e.json p.name (iso_world w)))
handle-Keeps e Method.template_list name params w wf =
    followed-Leaves w (Keeps false false w) _ (all_present (Records.list w.server.template_store))
      (same w false false)
handle-Keeps e Method.switch_list name params w wf =
    call-Leaves w (Keeps false false w) (on_host (Net.list_switches e.host) w) _
      (host-Keeps w (Net.list_switches e.host w.history))
handle-Keeps e Method.switch_create name params w wf =
    handler-Leaves w (Keeps false false w) (e.decoder.create_switch params)
      (λ p. on_host (Net.create_switch e.host p.name p.physical_interface)) _ (same w false false)
      (λ p. host-Keeps w (Net.create_switch e.host p.name p.physical_interface w.history))
handle-Keeps e Method.switch_delete name params w wf =
    handler-Leaves w (Keeps false false w) (e.decoder.vm_name params)
      (λ p. on_host (Net.delete_switch e.host p.name)) _ (same w false false)
      (λ p. host-Keeps w (Net.delete_switch e.host p.name w.history))
handle-Keeps e Method.host_info name params w wf = same w false false
handle-Keeps e Method.unknown name params w wf = same w false false
