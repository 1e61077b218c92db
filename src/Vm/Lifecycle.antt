-- ===== src/Vm/Lifecycle.antt =====
-- The methods of the manager that create, start, stop and destroy a machine, and that ask for its
-- state. Each is the whole method, its locks included.
pub mod Access
pub mod Stop
pub mod Create
pub mod Start
pub mod State
pub mod Missing
pub mod Destroy
use bhyve_mcp.Common.{
  ℕ, ℤ, String, ◌<>◌, Bool, true, false, Option, none, some, [], ◌∷◌, Exec, Result, ok, err, done,
  fail, pure, throw, throw_if, gets, put, catch, context, ignore, attempt, ◌>>=◌, ◌>>◌, is_zero,
  if◌then◌else◌, ◌=ₛ◌, not,
}
use bhyve_mcp.Common.Dict
use bhyve_mcp.Host.{Host, good, bad, need, ask, remove, spawn, signal, kill, wait}
use bhyve_mcp.Config.{VmConfig}
use bhyve_mcp.Config.File.{Yaml, save_vm_config}
use bhyve_mcp.Vmmapi
use bhyve_mcp.Vmmapi.{Handle}
use bhyve_mcp.Vm.Types.{
  VmState, defined, starting, running, stopping, stopped, is_running, Vm, World, Manager, set_vms,
  update_vm, set_state, on_host, with_read, with_write, with_vm, or_error,
}
use bhyve_mcp.Vm.Command.{build_bhyve_command}

-- The body of `Get`, under the read lock.
abbrev find : String → World → Result Vm
find name w = elim (Dict.lookup name w.manager.vms) [
  | none ↦ err ("VM not found: " <> name)
  | some v ↦ ok v
]

abbrev found : {A : Type 0} → Result A → Exec World A
found (ok v) w = done v w
found (err e) w = fail e w

-- The method `Get`. The machine is a pointer: later reads of a field go by `deref`.
unfoldable pub get : String → Exec World Vm
get name = with_read (gets (find name) >>= found)

-- The fields that the object has now; after a `delete` it is out of the map's reach.
abbrev deref : String → Vm → World → Vm
deref name v w = elim (Dict.lookup name w.manager.vms) [ none ↦ v | some now ↦ now ]

abbrev pub config_path : String → World → String
config_path name w = w.manager.config.paths.vm_config_dir <> "/" <> name <> ".yaml"

-- The configuration that `Create` builds.
unfoldable pub new_vm_config : Manager → String → ℤ → String → VmConfig
new_vm_config m name cpu memory = record {
  name = name;
  cpu = if is_zero cpu then m.config.defaults.cpu else cpu;
  memory = if memory =ₛ "" then m.config.defaults.memory else memory;
  boot = record {
    loader = m.config.defaults.loader;
    firmware = m.config.defaults.uefi_firmware;
    disk = "";
    device = "";
  };
  disks = [];
  network = record { net_type = "tap"; bridge = m.config.defaults.network_bridge; mac = "" } ∷ [];
  console = [];
  vnc = record { enabled = false; port = ℤ.pos 0; width = ℤ.pos 0; height = ℤ.pos 0 };
  flags = [];
}

-- A machine that is known and has not been started.
abbrev pub defined_vm : String → VmConfig → Vm
defined_vm name cfg = record {
  name = name;
  config = cfg;
  state = defined;
  process = none;
  vmmapi_vm = none;
  locked = false;
}

abbrev pub known : String → World → Bool
known name w = elim (Dict.lookup name w.manager.vms) [ none ↦ false | some _ ↦ true ]

-- `2048 * 1024 * 1024`
abbrev pub mem_size : ℕ
mem_size = 2147483648

-- `vm.vmmapiVM.Close(); vm.vmmapiVM = nil`, if there is a handle
close_handle : String → Option Handle → Exec World (Unit {0})
unfolding Vmmapi.close
close_handle name none = pure tt
close_handle name (some v) = do
  on_host (Vmmapi.close v)
  update_vm name (λ vm. record vm { vmmapi_vm = none })

module _ (h : Host) where
  start_locked : String → Vm → Exec World (Unit {0})
  unfolding Vmmapi.open_vm Vmmapi.setup_memory build_bhyve_command
  start_locked name vm = do
    throw_if (is_running vm.state) ("VM is already running: " <> name)
    set_state name starting
    handle ← or_error name "failed to open VM" (on_host (Vmmapi.open_vm h name))
    update_vm name (λ v. record v { vmmapi_vm = some handle })
    or_error name "failed to setup memory" (on_host (Vmmapi.setup_memory h handle mem_size))
    command ← or_error name "failed to build bhyve command" (build_bhyve_command vm)
    pid ←
        or_error name "failed to start bhyve"
          (on_host (need (λ past. h.spawn past command) (spawn command)))
    update_vm name (λ v. record v { process = some pid; state = running })

  unfoldable pub start : String → Exec World (Unit {0})
  unfolding start_locked
  start name = do vm ← get name; with_vm name (start_locked name vm)

  -- SIGTERM is signal 15. What `Wait` returns is dropped.
  stop_process : String → Option ℕ → Exec World (Unit {0})
  stop_process name none = pure tt
  stop_process name (some pid) = do
    catch (on_host (need (λ past. h.signal past pid 15) (signal pid 15))) (λ _.
        or_error name "failed to kill VM process"
          (on_host (need (λ past. h.kill past pid) (kill pid))))
    ignore (on_host (need (λ past. h.wait past pid) (wait pid)))

  stop_locked : String → Vm → Exec World (Unit {0})
  unfolding stop_process close_handle
  stop_locked name vm = do
    throw_if (not (is_running vm.state)) ("VM is not running: " <> name)
    set_state name stopping
    stop_process name vm.process
    close_handle name vm.vmmapi_vm
    set_state name stopped

  unfoldable pub stop : String → Exec World (Unit {0})
  unfolding stop_locked
  stop name = do vm ← get name; with_vm name (stop_locked name vm)

  -- Through the handle if there is one, else through a new one, which `Destroy` has closed
  -- before `Close` is called.
  destroy_handle : String → Option Handle → Exec World (Unit {0})
  unfolding Vmmapi.open_vm Vmmapi.destroy Vmmapi.close
  destroy_handle name (some v) = do
    on_host (Vmmapi.destroy v)
    update_vm name (λ vm. record vm { vmmapi_vm = none })
  destroy_handle name none = do
    opened ← attempt (on_host (Vmmapi.open_vm h name))
    elim opened [
      | err e ↦ pure tt
      | ok v ↦ do gone ← on_host (Vmmapi.destroy v); on_host (Vmmapi.close gone); pure tt
    ]

  -- A file that is not there is no error.
  remove_config : String → Exec World (Unit {0})
  remove_config path = do
    reply ← on_host (ask (λ past. h.remove past path) (remove path))
    elim reply [
      | good _ ↦ pure tt
      | bad f ↦ if f.not_exist then pure tt else throw ("failed to remove VM config: " <> f.message)
    ]

  destroy_locked : String → Vm → Exec World (Unit {0})
  unfolding destroy_handle remove_config
  destroy_locked name vm = do
    if is_running vm.state then context "failed to stop VM before destroy" (stop name) else pure tt
    now ← gets (deref name vm)
    destroy_handle name now.vmmapi_vm
    path ← gets (config_path name)
    remove_config path
    with_write (put (set_vms (Dict.erase name)))

  unfoldable pub destroy : String → Exec World (Unit {0})
  unfolding destroy_locked
  destroy name = do vm ← get name; with_vm name (destroy_locked name vm)

  -- Signal 0 asks whether the process runs. A machine whose process is gone is stopped.
  get_state_locked : String → Vm → Exec World VmState
  unfolding close_handle
  get_state_locked name vm = elim (is_running vm.state) [
    | false ↦ pure vm.state
    | true ↦ elim vm.process [
      | none ↦ pure vm.state
      | some pid ↦ do
        reply ← on_host (ask (λ past. h.signal past pid 0) (signal pid 0))
        elim reply [
          | good _ ↦ pure vm.state
          | bad _ ↦ do set_state name stopped; close_handle name vm.vmmapi_vm; pure stopped
        ]
    ]
  ]

  unfoldable pub get_state : String → Exec World VmState
  unfolding get_state_locked
  get_state name = do vm ← get name; with_vm name (get_state_locked name vm)

  module _ (y : Yaml) where
    -- The method `Create`.
    unfoldable pub create : String → ℤ → String → Exec World (Unit {0})
    unfolding save_vm_config Vmmapi.create new_vm_config
    create name cpu memory = with_write do
      exists ← gets (known name)
      throw_if exists ("VM already exists: " <> name)
      cfg ← gets (λ w. new_vm_config w.manager name cpu memory)
      path ← gets (config_path name)
      context "failed to save VM config" (on_host (save_vm_config h y path cfg))
      context "failed to create VM kernel object" (on_host (Vmmapi.create h name))
      put (set_vms (Dict.insert name (defined_vm name cfg)))
