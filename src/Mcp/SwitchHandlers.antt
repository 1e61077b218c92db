-- ===== src/Mcp/SwitchHandlers.antt =====
-- The handlers of the requests about bridges, and of `host/info`.
use bhyve_mcp.Common.{[], ◌∷◌, map, Exec, pure, gets, ◌>>=◌, ◌>>◌}
use bhyve_mcp.Config.{Config}
use bhyve_mcp.Net
use bhyve_mcp.Net.{SwitchInfo}
use bhyve_mcp.Mcp.Types.{
  Env, ServerWorld, Entries, Answer, text, texts, number, object, objects, success, text_entry,
  on_host, decoded,
}

switch_entries : SwitchInfo → Entries
switch_entries s =
    ("name", text s.name) ∷ ("type", text s.switch_type) ∷ ("interfaces", texts s.interfaces) ∷ []

info_entries : Config → Entries
info_entries c =
    ("platform", text "freebsd")
    ∷ ("default_bridge", text c.defaults.network_bridge)
    ∷ ("default_zpool", text c.defaults.zpool)
    ∷ ("max_vms", number c.limits.max_vms)
    ∷ ("max_cpu_per_vm", number c.limits.max_cpu_per_vm)
    ∷ ("max_memory_per_vm", text c.limits.max_memory_per_vm)
    ∷ []

module _ {V P : Type 0} (e : Env V P) where
  unfoldable pub handle_create_switch : P → Exec (ServerWorld V) Answer
  handle_create_switch params = do
    p ← decoded (e.decoder.create_switch params)
    on_host (Net.create_switch e.host p.name p.physical_interface)
    pure (success (text_entry "name" p.name ∷ []))

  unfoldable pub handle_delete_switch : P → Exec (ServerWorld V) Answer
  handle_delete_switch params = do
    p ← decoded (e.decoder.vm_name params)
    on_host (Net.delete_switch e.host p.name)
    pure (success (text_entry "name" p.name ∷ []))

  unfoldable pub handle_list_switches : Exec (ServerWorld V) Answer
  unfolding switch_entries
  handle_list_switches = do
    switches ← on_host (Net.list_switches e.host)
    pure (success (("switches", objects (map switch_entries switches)) ∷ []))

module _ {V : Type 0} where
  unfoldable pub handle_host_info : Exec (ServerWorld V) Answer
  unfolding info_entries
  handle_host_info = do
    config ← gets (λ w. w.server.config)
    pure (success (("info", object (info_entries config)) ∷ []))
