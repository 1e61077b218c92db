-- ===== src/Tests/Hosts.antt =====
-- Systems to run the model on.
use bhyve_mcp.Common.{pos, some, [], ◌∷◌, true, false, ok, err}
use bhyve_mcp.Host.{Host, Fault, good, bad}
use bhyve_mcp.Config.{zero_config}
use bhyve_mcp.Config.File.{Yaml}
use bhyve_mcp.Vm.Types.{new_manager}
use bhyve_mcp.Vm.Lifecycle.{new_vm_config}

-- Everything that is asked for is done.
abbrev pub willing : Host
willing = record {
  read_file = λ past path. good "";
  mkdir_all = λ past path. good tt;
  write_file = λ past path text. good tt;
  remove = λ past path. good tt;
  rename = λ past from to. good tt;
  read_dir = λ past path. good [];
  stat = λ past path. good 0;
  run = λ past words. good "";
  spawn = λ past words. good 100;
  signal = λ past pid n. good tt;
  kill = λ past pid. good tt;
  wait = λ past pid. good tt;
  vm_create = λ past name. pos 0;
  vm_open = λ past name. some 7;
  vm_setup_memory = λ past ctx size. pos 0;
}

abbrev pub denied : Fault
denied = record { message = "permission denied"; not_exist = false }

-- No command succeeds, and no process takes a signal.
abbrev pub refusing : Host
refusing = record willing {
  run = λ past words. bad denied;
  signal = λ past pid n. bad denied;
  kill = λ past pid. bad denied;
}

-- A YAML library that writes one text for every configuration, and reads none.
abbrev pub yaml : Yaml
yaml = record {
  unmarshal_config = λ text. ok zero_config;
  unmarshal_vm_config = λ text. err "no document";
  marshal_vm_config = λ cfg. ok "name: web";
}

-- Two configurations and a directory lie where the machines are kept.
abbrev pub stocked : Host
stocked = record willing {
  read_dir = λ past path. good (
      record { name = "db.yaml"; is_dir = false }
      ∷ record { name = "old"; is_dir = true }
      ∷ record { name = "web.yaml"; is_dir = false }
      ∷ []);
}

abbrev pub reading_yaml : Yaml
reading_yaml = record yaml {
  unmarshal_vm_config = λ text. ok (new_vm_config (new_manager zero_config) "" (pos 0) "");
}
