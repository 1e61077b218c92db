-- ===== src/Vm/Loading.antt =====
-- The methods of the manager that go through its machines or read their configurations.
pub mod Shutdown
pub mod Startup
pub mod Asking
pub mod Reloading
use bhyve_mcp.Common.{
  ℕ, ℤ, String, ◌<>◌, ◌=ₛ◌, Bool, true, false, Option, none, some, List, [], ◌∷◌, Exec, Result, ok,
  err, pure, throw, throw_if, gets, put, context, ignore, attempt, ◌>>=◌, ◌>>◌, if◌then◌else◌,
}
use bhyve_mcp.Common.Dict
use bhyve_mcp.Common.Dict.{Dict}
use bhyve_mcp.Common.Words.{before_suffix}
use bhyve_mcp.Host.{Host, Entry, Reply, good, bad, ask, read_dir}
use bhyve_mcp.Config.File.{Yaml, load_vm_config}
use bhyve_mcp.Vmmapi
use bhyve_mcp.Vmmapi.{Handle}
use bhyve_mcp.Vm.Types.{
  VmState, is_running, Vm, World, set_vms, on_host, with_read, with_write, with_vm,
}
use bhyve_mcp.Vm.Lifecycle.{get, stop, known, defined_vm, config_path}

-- The method `List`, in the order in which the map is gone through.
unfoldable pub list : Exec World (List Vm)
list = with_read (gets (λ w. Dict.values w.manager.vms))

-- The map that `GetStatus` gives; `vmmapi_state` is there if the machine has a handle.
pub record Status : Type 0 where
  pub name : String
  pub state : VmState
  pub cpu : ℤ
  pub memory : String
  pub vmmapi_state : Option String

abbrev pub handle_state : Option Handle → Option String
handle_state none = none
handle_state (some v) = some (Vmmapi.state_text (Vmmapi.get_state v))

abbrev pub status_of : Vm → Status
status_of vm = record {
  name = vm.name;
  state = vm.state;
  cpu = vm.config.cpu;
  memory = vm.config.memory;
  vmmapi_state = handle_state vm.vmmapi_vm;
}

unfoldable pub get_status : String → Exec World Status
get_status name = do vm ← get name; with_vm name (pure (status_of vm))

-- The name of the machine of a file: `.yaml` is cut off if something stands before it.
unfoldable pub vm_name : String → String
unfolding before_suffix ◌=ₛ◌
vm_name file = elim (before_suffix ".yaml" file) [
  | none ↦ file
  | some name ↦ if name =ₛ "" then file else name
]

module _ (h : Host) (y : Yaml) where
  -- The method `LoadVM`.
  unfoldable pub load_vm : String → Exec World (Unit {0})
  unfolding load_vm_config
  load_vm name = with_write do
    exists ← gets (known name)
    throw_if exists ("VM already loaded: " <> name)
    path ← gets (config_path name)
    cfg ← context "failed to load VM config" (on_host (load_vm_config h y path))
    put (set_vms (Dict.insert name (defined_vm name cfg)))

  -- The loop over the directory. The warning that is printed for an error is left out.
  unfoldable pub load_entries : List Entry → Exec World (Unit {0})
  load_entries [] = pure tt
  load_entries (e ∷ es) = do
    elim e.is_dir [ true ↦ pure tt | false ↦ ignore (load_vm (vm_name e.name)) ]
    load_entries es

  abbrev loaded : Reply (List Entry) → Exec World (Unit {0})
  loaded (good es) = load_entries es
  loaded (bad f) =
      throw_if (if f.not_exist then false else true)
        ("failed to read VM config directory: " <> f.message)

  -- The method `LoadAllVMs`.
  unfoldable pub load_all_vms : Exec World (Unit {0})
  load_all_vms = do
    dir ← gets (λ w. w.manager.config.paths.vm_config_dir)
    entries ← on_host (ask (λ past. h.read_dir past dir) (read_dir dir))
    loaded entries

abbrev last_error : String → Option String → Result (Unit {0}) → Option String
last_error name last (ok _) = last
last_error name last (err e) = some ("failed to stop VM " <> name <> ": " <> e)

abbrev report : Option String → Exec World (Unit {0})
report none = pure tt
report (some e) = throw e

module _ (h : Host) where
  -- The loop over the machines, with the last error so far. `Stop` of one machine changes no other.
  unfoldable pub stop_all : Dict Vm → Option String → Exec World (Unit {0})
  stop_all [] last = report last
  stop_all ((name, vm) ∷ vms) last = elim (is_running vm.state) [
    | false ↦ stop_all vms last
    | true ↦ do result ← attempt (stop h name); stop_all vms (last_error name last result)
  ]

  -- The method `Shutdown`.
  unfoldable pub shutdown : Exec World (Unit {0})
  shutdown = with_write do vms ← gets (λ w. w.manager.vms); stop_all vms none
