-- ===== src/Tests/Reloads.antt =====
-- A machine that is created, and loaded after a restart.
use bhyve_mcp.Common.{
  String, ◌=ₛ◌, ◌≡◌, refl, pos, ok, some, [], ◌∷◌, done, eq_refl, arith, if◌then◌else◌,
}
use bhyve_mcp.Common.Dict
use bhyve_mcp.Common.FilePath
use bhyve_mcp.Host.{
  read_dir, read_file, Host, History, Reply, good, bad, write_file, vm_create, mkdir_all,
}
use bhyve_mcp.Config.{default_config}
use bhyve_mcp.Config.File.{Yaml}
use bhyve_mcp.Vm.Types.{Vm, World, new_manager}
use bhyve_mcp.Vm.Lifecycle.{create, config_path}
use bhyve_mcp.Vm.Lifecycle.Access.{with_entry}
use bhyve_mcp.Vm.Loading.{load_vm}
use bhyve_mcp.Vm.Loading.Reloading.{KeepsConfigs, create-load_vm}
use bhyve_mcp.Tests.Hosts.{willing, denied, yaml}
use bhyve_mcp.Tests.Machines.{fresh, web}

-- What the last write to a file put there.
last_written : History → String → Reply String
last_written [] p = bad denied
last_written (write_file q text ∷ past) p = if q =ₛ p then good text else last_written past p
last_written (_ ∷ past) p = last_written past p

abbrev remembering : Host
remembering = record willing { read_file = last_written }

remembering-KeepsConfigs : KeepsConfigs remembering
unfolding last_written
remembering-KeepsConfigs past p text name e = ground (arith, eq_refl p)

abbrev web_yaml : Yaml
web_yaml = record yaml { unmarshal_vm_config = λ text. ok web.config }

abbrev web_path : String
web_path = config_path "web" fresh

abbrev created_web : World
created_web = record {
  manager = with_entry "web" web fresh.manager;
  history =
      vm_create "web" ∷ write_file web_path "name: web" ∷ mkdir_all (FilePath.dir web_path) ∷ [];
}

-- Another process starts with no machines, once it has read the state file and the directory.
abbrev restarted : World
restarted = record {
  manager = new_manager default_config;
  history =
      read_dir "/vms" ∷ read_file "/state/state.json" ∷ mkdir_all "/state" ∷ created_web.history;
}

create-load_vm_example :
    (m : Vm) × (t : World) × (Dict.lookup "web" created_web.manager.vms ≡ some m)
    × (load_vm remembering web_yaml "web" restarted ≡ done tt t)
    × (t.manager ≡ with_entry "web" m restarted.manager)
unfolding create new_manager Dict.lookup last_written
create-load_vm_example =
    create-load_vm remembering web_yaml "web" (pos 2) "1G" fresh created_web restarted
      remembering-KeepsConfigs (λ text e. refl) refl refl refl refl refl
