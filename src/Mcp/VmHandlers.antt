-- ===== src/Mcp/VmHandlers.antt =====
-- The handlers of the requests about machines.
use bhyve_mcp.Common.{String, Option, none, some, [], ◌∷◌, map, Exec, pure, ◌>>=◌, ◌>>◌}
use bhyve_mcp.Vm.Types.{Vm, state_text}
use bhyve_mcp.Vm.Lifecycle
use bhyve_mcp.Vm.Loading
use bhyve_mcp.Vm.Loading.{Status}
use bhyve_mcp.Mcp.Types.{
  Env, ServerWorld, Entries, Answer, text, number, object, objects, success, text_entry,
  on_machines, decoded,
}

-- The entry for the state of the handle, if there is one.
abbrev handle_entries : Option String → Entries
handle_entries none = []
handle_entries (some state) = ("vmmapi_state", text state) ∷ []

-- The map of `GetStatus`.
status_entries : Status → Entries
status_entries s =
    ("name", text s.name)
    ∷ ("state", text (state_text s.state))
    ∷ ("cpu", number s.cpu)
    ∷ ("memory", text s.memory)
    ∷ handle_entries s.vmmapi_state

vm_entries : Vm → Entries
vm_entries v =
    ("name", text v.name)
    ∷ ("state", text (state_text v.state))
    ∷ ("cpu", number v.config.cpu)
    ∷ ("memory", text v.config.memory)
    ∷ []

module _ {V P : Type 0} (e : Env V P) where
  unfoldable pub handle_create_vm : P → Exec (ServerWorld V) Answer
  handle_create_vm params = do
    p ← decoded (e.decoder.create_vm params)
    on_machines (Lifecycle.create e.host e.yaml p.name p.cpu p.memory)
    pure (success (text_entry "name" p.name ∷ []))

  unfoldable pub handle_start_vm : P → Exec (ServerWorld V) Answer
  handle_start_vm params = do
    p ← decoded (e.decoder.vm_name params)
    on_machines (Lifecycle.start e.host p.name)
    pure (success (text_entry "name" p.name ∷ text_entry "status" "started" ∷ []))

  unfoldable pub handle_stop_vm : P → Exec (ServerWorld V) Answer
  handle_stop_vm params = do
    p ← decoded (e.decoder.vm_name params)
    on_machines (Lifecycle.stop e.host p.name)
    pure (success (text_entry "name" p.name ∷ text_entry "status" "stopped" ∷ []))

  unfoldable pub handle_destroy_vm : P → Exec (ServerWorld V) Answer
  handle_destroy_vm params = do
    p ← decoded (e.decoder.vm_name params)
    on_machines (Lifecycle.destroy e.host p.name)
    pure (success (text_entry "name" p.name ∷ text_entry "status" "destroyed" ∷ []))

  unfoldable pub handle_get_vm_state : P → Exec (ServerWorld V) Answer
  handle_get_vm_state params = do
    p ← decoded (e.decoder.vm_name params)
    state ← on_machines (Lifecycle.get_state e.host p.name)
    pure (success (text_entry "name" p.name ∷ text_entry "state" (state_text state) ∷ []))

  unfoldable pub handle_get_vm_status : P → Exec (ServerWorld V) Answer
  unfolding status_entries
  handle_get_vm_status params = do
    p ← decoded (e.decoder.vm_name params)
    status ← on_machines (Loading.get_status p.name)
    pure (success (("status", object (status_entries status)) ∷ []))

module _ {V : Type 0} where
  unfoldable pub handle_list_vms : Exec (ServerWorld V) Answer
  unfolding vm_entries
  handle_list_vms = do
    vms ← on_machines Loading.list
    pure (success (("vms", objects (map vm_entries vms)) ∷ []))
