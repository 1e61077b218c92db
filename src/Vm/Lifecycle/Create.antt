-- ===== src/Vm/Lifecycle/Create.antt =====
-- What `Create` does.
use bhyve_mcp.Common.{
  refl, none, ◌=ₛ◌, is_zero, map, [], ◌∷◌, Result, ok, err, Bool, ℤ, String, ◌<>◌, ◌≡◌, some, true,
  false, arith, fail, if◌then◌else◌,
}
use bhyve_mcp.Common.FilePath
use bhyve_mcp.Host.{Host, History, Reply, good, bad, mkdir_all, write_file, vm_create}
use bhyve_mcp.Config.{Config}
use bhyve_mcp.Config.File.{Yaml}
use bhyve_mcp.Vm.Types.{Vm, defined, World, unlocked}
use bhyve_mcp.Vm.Lifecycle.{create, known, new_vm_config, defined_vm, config_path}
use bhyve_mcp.Vm.Lifecycle.Access.{manager_after, world_after, succeeded, with_entry}

-- A machine as it was asked for: a number of processors that is 0 and a memory that is empty stand for
-- the defaults, and it has one network interface, on the default bridge.
pub record IsRequested (name : String) (cpu : ℤ) (memory : String) (c : Config) (v : Vm)
    : Type 0 where
  pub named : (v.name ≡ name) × (v.config.name ≡ name)
  pub cpus : v.config.cpu ≡ (if is_zero cpu then c.defaults.cpu else cpu)
  pub memory_size : v.config.memory ≡ (if memory =ₛ "" then c.defaults.memory else memory)
  pub loader : v.config.boot.loader ≡ c.defaults.loader
  pub nets : map (λ n. n.bridge) v.config.network ≡ c.defaults.network_bridge ∷ []
  pub idle : (v.state ≡ defined) × (v.process ≡ none) × (v.vmmapi_vm ≡ none) × (v.locked ≡ false)

-- Whether `Create` succeeds, and its calls: the directory of the configuration is made, its text is
-- written, and `vm_create` answers 0.
abbrev after_write : Host → String → History → Reply (Unit {0}) → Bool × History
after_write h name past (bad _) = (false, past)
after_write h name past (good _) = (is_zero (h.vm_create past name), vm_create name ∷ past)

abbrev after_text : Host → String → String → History → Result String → Bool × History
after_text h name path past (err _) = (false, past)
after_text h name path past (ok text) =
    after_write h name (write_file path text ∷ past) (h.write_file past path text)

abbrev pub create_calls : Host → String → String → History → Result String → Bool × History
create_calls h name path past text = elim (h.mkdir_all past (FilePath.dir path)) [
  | bad _ ↦ (false, mkdir_all (FilePath.dir path) ∷ past)
  | good _ ↦ after_text h name path (mkdir_all (FilePath.dir path) ∷ past) text
]

module _ (h : Host) (y : Yaml) (name : String) (w : World) (mu : w.manager.mu ≡ unlocked) where
  -- `Create` under a name that is taken is refused, and does nothing.
  pub create-known :
      (cpu : ℤ) (memory : String)
      → known name w ≡ true
      → create h y name cpu memory w ≡ fail ("VM already exists: " <> name) w
  unfolding create
  create-known cpu memory k = ground (arith, mu)

  -- `Create` under a new name comes back with no lock held: on success the manager has one machine
  -- more, in the state defined with the requested configuration, after an error it is as before.
  pub create_new :
      (cpu : ℤ) (memory : String)
      → known name w ≡ false
      → let o = create h y name cpu memory w in
        let v = defined_vm name (new_vm_config w.manager name cpu memory) in
        manager_after o ≡ some (if succeeded o then with_entry name v w.manager else w.manager)
  unfolding create
  create_new cpu memory k = ground (arith, mu)

  -- `Create` under a new name makes the directory of its configuration, writes the configuration's
  -- text, and calls `vm_create`, each only if the one before succeeded, and makes no other call. It
  -- succeeds exactly when all do: the manager then has one machine more, as it was asked for, and is
  -- otherwise as before. No lock is held after it.
  pub create_new-calls :
      (cpu : ℤ) (memory : String)
      → known name w ≡ false
      → let o = create h y name cpu memory w in
        (v : Vm) × IsRequested name cpu memory w.manager.config v
        × (let (b, past) =
              create_calls h name (config_path name w) w.history (y.marshal_vm_config v.config) in
            (world_after o
              ≡ some (record {
                manager = if b then with_entry name v w.manager else w.manager;
                history = past;
              }))
            × (succeeded o ≡ b))
  unfolding create new_vm_config
  create_new-calls cpu memory k = (
    defined_vm name (new_vm_config w.manager name cpu memory),
    record {
      named = (refl, refl);
      cpus = refl;
      memory_size = refl;
      loader = refl;
      nets = refl;
      idle = (refl, refl, refl, refl);
    },
    ground (arith, mu),
  )
