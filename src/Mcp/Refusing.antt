-- ===== src/Mcp/Refusing.antt =====
-- Requests that are refused before any manager is asked.
use bhyve_mcp.Common.{String, ◌<>◌, ◌≡◌, Option, none, some, Result, ok, err, fail, ap, Exec, ◌>>=◌}
use mathlib.Core.Option.{some-injective}
use bhyve_mcp.Mcp.Types.{Env, ServerWorld, decoded}
use bhyve_mcp.Mcp.VmHandlers.{
  handle_create_vm, handle_start_vm, handle_stop_vm, handle_destroy_vm, handle_get_vm_state,
  handle_get_vm_status,
}
use bhyve_mcp.Mcp.DiskHandlers.{
  handle_create_disk, handle_delete_disk, handle_resize_disk, handle_clone_disk,
}
use bhyve_mcp.Mcp.StoreHandlers.{handle_delete_iso}
use bhyve_mcp.Mcp.SwitchHandlers.{handle_create_switch, handle_delete_switch}
use bhyve_mcp.Mcp.Dispatch.{Method, method_of, handle, handle_request}

abbrev undecoded : {A : Type 0} → Result A → Option String
undecoded (ok _) = none
undecoded (err x) = some ("invalid params" <> ": " <> x)

refused :
    {V A B : Type 0} (r : Result A) (f : A → Exec (ServerWorld V) B) (w : ServerWorld V)
    (x : String)
    → undecoded r ≡ some x
    → (decoded r >>= f) w ≡ fail x w
refused (ok a) f w x e = cc
refused (err y) f w x e = ap (λ z. fail z w) (some-injective _ _ e)

-- The text with which a request is refused: the method is not known, or its parameters do not have
-- the method's type.
abbrev pub refusal : {V P : Type 0} → Env V P → Method → String → P → Option String
refusal e Method.vm_create name params = undecoded (e.decoder.create_vm params)
refusal e Method.vm_start name params = undecoded (e.decoder.vm_name params)
refusal e Method.vm_stop name params = undecoded (e.decoder.vm_name params)
refusal e Method.vm_destroy name params = undecoded (e.decoder.vm_name params)
refusal e Method.vm_state name params = undecoded (e.decoder.vm_name params)
refusal e Method.vm_status name params = undecoded (e.decoder.vm_name params)
refusal e Method.vm_list name params = none
refusal e Method.disk_create name params = undecoded (e.decoder.create_disk params)
refusal e Method.disk_delete name params = undecoded (e.decoder.create_disk params)
refusal e Method.disk_resize name params = undecoded (e.decoder.resize_disk params)
refusal e Method.disk_clone name params = undecoded (e.decoder.clone_disk params)
refusal e Method.disk_list name params = none
refusal e Method.iso_list name params = none
refusal e Method.iso_delete name params = undecoded (e.decoder.vm_name params)
refusal e Method.template_list name params = none
refusal e Method.switch_list name params = none
refusal e Method.switch_create name params = undecoded (e.decoder.create_switch params)
refusal e Method.switch_delete name params = undecoded (e.decoder.vm_name params)
refusal e Method.host_info name params = none
refusal e Method.unknown name params = some ("unknown method: " <> name)

module _ {V P : Type 0} (e : Env V P) where
  handle-refusal :
      (m : Method) (name : String) (params : P) (w : ServerWorld V) (x : String)
      → refusal e m name params ≡ some x
      → handle e m name params w ≡ fail x w
  unfolding handle handle_create_vm handle_start_vm handle_stop_vm handle_destroy_vm
      handle_get_vm_state handle_get_vm_status handle_create_disk handle_delete_disk
      handle_resize_disk handle_clone_disk handle_delete_iso handle_create_switch
      handle_delete_switch
  handle-refusal Method.vm_create name params w x r = refused (e.decoder.create_vm params) _ w x r
  handle-refusal Method.vm_start name params w x r = refused (e.decoder.vm_name params) _ w x r
  handle-refusal Method.vm_stop name params w x r = refused (e.decoder.vm_name params) _ w x r
  handle-refusal Method.vm_destroy name params w x r = refused (e.decoder.vm_name params) _ w x r
  handle-refusal Method.vm_state name params w x r = refused (e.decoder.vm_name params) _ w x r
  handle-refusal Method.vm_status name params w x r = refused (e.decoder.vm_name params) _ w x r
  handle-refusal Method.vm_list name params w x r = cc
  handle-refusal Method.disk_create name params w x r =
      refused (e.decoder.create_disk params) _ w x r
  handle-refusal Method.disk_delete name params w x r =
      refused (e.decoder.create_disk params) _ w x r
  handle-refusal Method.disk_resize name params w x r =
      refused (e.decoder.resize_disk params) _ w x r
  handle-refusal Method.disk_clone name params w x r = refused (e.decoder.clone_disk params) _ w x r
  handle-refusal Method.disk_list name params w x r = cc
  handle-refusal Method.iso_list name params w x r = cc
  handle-refusal Method.iso_delete name params w x r = refused (e.decoder.vm_name params) _ w x r
  handle-refusal Method.template_list name params w x r = cc
  handle-refusal Method.switch_list name params w x r = cc
  handle-refusal Method.switch_create name params w x r =
      refused (e.decoder.create_switch params) _ w x r
  handle-refusal Method.switch_delete name params w x r = refused (e.decoder.vm_name params) _ w x r
  handle-refusal Method.host_info name params w x r = cc
  handle-refusal Method.unknown name params w x r = ap (λ z. fail z w) (some-injective _ _ r)

  -- A request whose method is not known, or whose parameters cannot be decoded at the type of its
  -- method, is answered with that error, and nothing is changed and no call made.
  pub handle_request-refusal :
      (name : String) (params : P) (w : ServerWorld V) (x : String)
      → refusal e (method_of name) name params ≡ some x
      → handle_request e name params w ≡ fail x w
  unfolding handle_request handle
  handle_request-refusal name params w x r = handle-refusal (method_of name) name params w x r
