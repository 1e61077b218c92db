-- ===== src/Mcp/Settling/OtherRequests.antt =====
-- Requests about disks, images and bridges come back.
use bhyve_mcp.Common.{is_some, refl, ◌≡◌, true, List, Option, none, some, pure, ◌>>=◌, String}
use bhyve_mcp.Disk
use bhyve_mcp.Disk.Listing
use bhyve_mcp.Net
use bhyve_mcp.Store.Records
use bhyve_mcp.Vm.Invariant.{WellFormed}
use bhyve_mcp.Store.Records.Sharing.{delete-comes_back}
use bhyve_mcp.Net.Listing.{delete_switch-comes_back, list_switches-comes_back}
use bhyve_mcp.Mcp.Types.{Env, ServerWorld, iso_world, on_host, on_disks, on_isos}
use bhyve_mcp.Mcp.DiskHandlers.{
  handle_create_disk, handle_delete_disk, handle_resize_disk, handle_clone_disk, handle_list_disks,
  type_or_raw,
}
use bhyve_mcp.Mcp.Present.{IsWhole, is_some-some}
use bhyve_mcp.Mcp.StoreHandlers.{
  all_present, followed, handle_list_isos, handle_list_templates, handle_delete_iso,
}
use bhyve_mcp.Mcp.SwitchHandlers.{handle_list_switches, handle_create_switch, handle_delete_switch}
use bhyve_mcp.Mcp.Dispatch.{Method, handle}
use bhyve_mcp.Mcp.Settling.{
  ServerSettles, on_host-Settles, on_isos-Settles, handler-Settles, after_call,
  create_disk-comes_back, delete_disk-comes_back, resize_disk-comes_back, clone_disk-comes_back,
  list_disks-comes_back, create_switch-comes_back,
}

module _ {V P : Type 0} (e : Env V P) (name : String) (params : P) (w : ServerWorld V)
    (wf : WellFormed w.server.vm_manager) where
  pub create_disk-ServerSettles : ServerSettles (handle e Method.disk_create name params w)
  unfolding handle handle_create_disk
  create_disk-ServerSettles =
      handler-Settles (e.decoder.create_disk params)
        (λ p. on_disks (λ m. Disk.create e.host m p.name p.size (type_or_raw p.disk_type))) _ w wf
        (λ p _.
          on_host-Settles
            (Disk.create e.host w.server.disk_manager p.name p.size (type_or_raw p.disk_type)) w
            (create_disk-comes_back e.host w.server.disk_manager p.name p.size
              (type_or_raw p.disk_type) w.history)
            wf)

  pub delete_disk-ServerSettles : ServerSettles (handle e Method.disk_delete name params w)
  unfolding handle handle_delete_disk
  delete_disk-ServerSettles =
      handler-Settles (e.decoder.create_disk params)
        (λ p. on_disks (λ m. Disk.delete e.host m p.name (type_or_raw p.disk_type))) _ w wf
        (λ p _.
          on_host-Settles
            (Disk.delete e.host w.server.disk_manager p.name (type_or_raw p.disk_type)) w
            (delete_disk-comes_back e.host w.server.disk_manager p.name (type_or_raw p.disk_type)
              w.history)
            wf)

  pub resize_disk-ServerSettles : ServerSettles (handle e Method.disk_resize name params w)
  unfolding handle handle_resize_disk
  resize_disk-ServerSettles =
      handler-Settles (e.decoder.resize_disk params)
        (λ p. on_disks (λ m. Disk.resize e.host m p.name p.size (type_or_raw p.disk_type))) _ w wf
        (λ p _.
          on_host-Settles
            (Disk.resize e.host w.server.disk_manager p.name p.size (type_or_raw p.disk_type)) w
            (resize_disk-comes_back e.host w.server.disk_manager p.name p.size
              (type_or_raw p.disk_type) w.history)
            wf)

  pub clone_disk-ServerSettles : ServerSettles (handle e Method.disk_clone name params w)
  unfolding handle handle_clone_disk
  clone_disk-ServerSettles =
      handler-Settles (e.decoder.clone_disk params)
        (λ p. on_disks (λ m. Disk.clone e.host m p.source p.dest (type_or_raw p.disk_type))) _ w wf
        (λ p _.
          on_host-Settles
            (Disk.clone e.host w.server.disk_manager p.source p.dest (type_or_raw p.disk_type)) w
            (clone_disk-comes_back e.host w.server.disk_manager p.source p.dest
              (type_or_raw p.disk_type) w.history)
            wf)

  pub list_disks-ServerSettles : ServerSettles (handle e Method.disk_list name params w)
  unfolding handle handle_list_disks
  list_disks-ServerSettles = after_call (on_disks (λ m. Listing.list e.host m) w) _ w (
      on_host-Settles (Listing.list e.host w.server.disk_manager) w
        (list_disks-comes_back e.host w.server.disk_manager w.history) wf)

  pub create_switch-ServerSettles : ServerSettles (handle e Method.switch_create name params w)
  unfolding handle handle_create_switch
  create_switch-ServerSettles =
      handler-Settles (e.decoder.create_switch params)
        (λ p. on_host (Net.create_switch e.host p.name p.physical_interface)) _ w wf
        (λ p _.
          on_host-Settles (Net.create_switch e.host p.name p.physical_interface) w
            (create_switch-comes_back e.host p.name p.physical_interface w.history) wf)

  pub delete_switch-ServerSettles : ServerSettles (handle e Method.switch_delete name params w)
  unfolding handle handle_delete_switch
  delete_switch-ServerSettles =
      handler-Settles (e.decoder.vm_name params) (λ p. on_host (Net.delete_switch e.host p.name)) _
        w wf
        (λ p _.
          on_host-Settles (Net.delete_switch e.host p.name) w
            (delete_switch-comes_back e.host p.name w.history) wf)

  pub list_switches-ServerSettles : ServerSettles (handle e Method.switch_list name params w)
  unfolding handle handle_list_switches
  list_switches-ServerSettles =
      after_call (on_host (Net.list_switches e.host) w) _ w (
        on_host-Settles (Net.list_switches e.host) w (list_switches-comes_back e.host w.history) wf)

  pub delete_iso-ServerSettles :
      IsWhole w.server → ServerSettles (handle e Method.iso_delete name params w)
  unfolding handle handle_delete_iso
  delete_iso-ServerSettles whole =
      let (s, full) = is_some-some w.server.state_store.values whole.values in
      handler-Settles (e.decoder.vm_name params)
        (λ p. on_isos (Records.delete e.isos e.host e.json p.name)) _ w wf
        (λ p _.
          on_isos-Settles (Records.delete e.isos e.host e.json p.name) w
            (delete-comes_back e.isos e.host e.json p.name s (iso_world w) full) wf)

module _ {V R B : Type 0} (w : ServerWorld V) (wf : WellFormed w.server.vm_manager) where
  followed-ServerSettles :
      (k : List R → B) (o : Option (List R))
      → is_some o ≡ true
      → ServerSettles ((followed o >>= λ rs. pure (k rs)) w)
  followed-ServerSettles k none p = cc
  followed-ServerSettles k (some rs) p = (w, refl, wf)

module _ {V P : Type 0} (e : Env V P) (name : String) (params : P) (w : ServerWorld V)
    (wf : WellFormed w.server.vm_manager) (whole : IsWhole w.server) where
  pub list_isos-ServerSettles : ServerSettles (handle e Method.iso_list name params w)
  unfolding handle handle_list_isos
  list_isos-ServerSettles =
      followed-ServerSettles w wf _ (all_present (Records.list w.server.iso_store)) whole.isos

  pub list_templates-ServerSettles : ServerSettles (handle e Method.template_list name params w)
  unfolding handle handle_list_templates
  list_templates-ServerSettles =
      followed-ServerSettles w wf _ (all_present (Records.list w.server.template_store))
        whole.templates
