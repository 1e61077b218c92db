-- ===== src/Mcp/Dispatch.antt =====
-- The method HandleRequest.
use bhyve_mcp.Common.{String, ◌<>◌, ◌=ₛ◌, Exec, throw, if◌then◌else◌}
use bhyve_mcp.Mcp.Types.{Env, ServerWorld, Answer}
use bhyve_mcp.Mcp.VmHandlers.{
  handle_create_vm, handle_start_vm, handle_stop_vm, handle_destroy_vm, handle_get_vm_state,
  handle_list_vms, handle_get_vm_status,
}
use bhyve_mcp.Mcp.DiskHandlers.{
  handle_create_disk, handle_delete_disk, handle_resize_disk, handle_clone_disk, handle_list_disks,
}
use bhyve_mcp.Mcp.StoreHandlers.{handle_list_isos, handle_delete_iso, handle_list_templates}
use bhyve_mcp.Mcp.SwitchHandlers.{
  handle_list_switches, handle_create_switch, handle_delete_switch, handle_host_info,
}

-- The cases of the `switch` over the method's name.
pub data Method : Type 0 where
  vm_create vm_start vm_stop vm_destroy vm_state vm_list vm_status : Method
  disk_create disk_delete disk_resize disk_clone disk_list : Method
  iso_list iso_delete template_list : Method
  switch_list switch_create switch_delete : Method
  host_info unknown : Method

unfoldable pub method_of : String → Method
method_of name =
    if name =ₛ "vm/create"
    then vm_create
    else if name =ₛ "vm/start"
    then vm_start
    else if name =ₛ "vm/stop"
    then vm_stop
    else if name =ₛ "vm/destroy"
    then vm_destroy
    else if name =ₛ "vm/state"
    then vm_state
    else if name =ₛ "vm/list"
    then vm_list
    else if name =ₛ "vm/status"
    then vm_status
    else if name =ₛ "disk/create"
    then disk_create
    else if name =ₛ "disk/delete"
    then disk_delete
    else if name =ₛ "disk/resize"
    then disk_resize
    else if name =ₛ "disk/clone"
    then disk_clone
    else if name =ₛ "disk/list"
    then disk_list
    else if name =ₛ "iso/list"
    then iso_list
    else if name =ₛ "iso/delete"
    then iso_delete
    else if name =ₛ "template/list"
    then template_list
    else if name =ₛ "net/switch/list"
    then switch_list
    else if name =ₛ "net/switch/create"
    then switch_create
    else if name =ₛ "net/switch/delete"
    then switch_delete
    else if name =ₛ "host/info"
    then host_info
    else unknown

module _ {V P : Type 0} (e : Env V P) where
  unfoldable pub handle : Method → String → P → Exec (ServerWorld V) Answer
  handle vm_create name params = handle_create_vm e params
  handle vm_start name params = handle_start_vm e params
  handle vm_stop name params = handle_stop_vm e params
  handle vm_destroy name params = handle_destroy_vm e params
  handle vm_state name params = handle_get_vm_state e params
  handle vm_list name params = handle_list_vms
  handle vm_status name params = handle_get_vm_status e params
  handle disk_create name params = handle_create_disk e params
  handle disk_delete name params = handle_delete_disk e params
  handle disk_resize name params = handle_resize_disk e params
  handle disk_clone name params = handle_clone_disk e params
  handle disk_list name params = handle_list_disks e
  handle iso_list name params = handle_list_isos
  handle iso_delete name params = handle_delete_iso e params
  handle template_list name params = handle_list_templates
  handle switch_list name params = handle_list_switches e
  handle switch_create name params = handle_create_switch e params
  handle switch_delete name params = handle_delete_switch e params
  handle host_info name params = handle_host_info
  handle unknown name params = throw ("unknown method: " <> name)

  unfoldable pub handle_request : String → P → Exec (ServerWorld V) Answer
  unfolding method_of handle
  handle_request name params = handle (method_of name) name params
