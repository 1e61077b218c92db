-- ===== src/Config/Defaults.antt =====
-- What `setDefaults` leaves behind.
use bhyve_mcp.Common.{ℤ, is_zero, String, ◌=ₛ◌, false, ◌≡◌, refl, arith}
use bhyve_mcp.Config.{
  Config, ServerConfig, PathsConfig, DefaultsConfig, VncConfig, LimitsConfig, ConsoleConfig,
  set_defaults, server_defaults, paths_defaults, vm_defaults, vnc_defaults, limits_defaults,
  console_defaults, default_text, default_int,
}

-- The setting is present: neither "" nor 0.
abbrev pub HasText : String → Type 0
HasText s = (s =ₛ "") ≡ false

abbrev pub HasInt : ℤ → Type 0
HasInt n = is_zero n ≡ false

pub record ServerIsComplete (c : ServerConfig) : Type 0 where
  pub transport : HasText c.transport
  pub port : HasInt c.port
  pub bind : HasText c.bind
  pub log_level : HasText c.log_level

pub record PathsIsComplete (c : PathsConfig) : Type 0 where
  pub vm_config_dir : HasText c.vm_config_dir
  pub state_dir : HasText c.state_dir
  pub iso_dir : HasText c.iso_dir
  pub disk_dir : HasText c.disk_dir
  pub template_dir : HasText c.template_dir
  pub cloud_init_dir : HasText c.cloud_init_dir
  pub log_dir : HasText c.log_dir
  pub console_log_dir : HasText c.console_log_dir

pub record DefaultsIsComplete (c : DefaultsConfig) : Type 0 where
  pub cpu : HasInt c.cpu
  pub memory : HasText c.memory
  pub disk_size : HasText c.disk_size
  pub disk_type : HasText c.disk_type
  pub zpool : HasText c.zpool
  pub network_bridge : HasText c.network_bridge
  pub loader : HasText c.loader
  pub uefi_firmware : HasText c.uefi_firmware

pub record VncIsComplete (c : VncConfig) : Type 0 where
  pub base_port : HasInt c.base_port
  pub bind : HasText c.bind
  pub width : HasInt c.width
  pub height : HasInt c.height

pub record LimitsIsComplete (c : LimitsConfig) : Type 0 where
  pub max_vms : HasInt c.max_vms
  pub max_cpu_per_vm : HasInt c.max_cpu_per_vm
  pub max_memory_per_vm : HasText c.max_memory_per_vm
  pub max_iso_storage : HasText c.max_iso_storage
  pub max_disk_storage : HasText c.max_disk_storage
  pub max_template_storage : HasText c.max_template_storage
  pub max_iso_size : HasText c.max_iso_size
  pub max_disk_size : HasText c.max_disk_size

-- Every setting that has a default is present.
pub record IsComplete (c : Config) : Type 0 where
  pub server : ServerIsComplete c.server
  pub paths : PathsIsComplete c.paths
  pub defaults : DefaultsIsComplete c.defaults
  pub vnc : VncIsComplete c.vnc
  pub limits : LimitsIsComplete c.limits
  pub console : HasInt c.console.max_log_files

-- A default that is itself present leaves the setting present.
default_text-HasText : (d s : String) → HasText d → HasText (default_text d s)
default_text-HasText d s h = ground arith

default_int-HasInt : (d n : ℤ) → HasInt d → HasInt (default_int d n)
default_int-HasInt d n h = ground arith

server_defaults-ServerIsComplete : (c : ServerConfig) → ServerIsComplete (server_defaults c)
unfolding server_defaults ◌=ₛ◌
server_defaults-ServerIsComplete c = record {
  transport = default_text-HasText _ c.transport refl;
  port = default_int-HasInt _ c.port refl;
  bind = default_text-HasText _ c.bind refl;
  log_level = default_text-HasText _ c.log_level refl;
}

server_defaults_fixed : (c : ServerConfig) → ServerIsComplete c → server_defaults c ≡ c
unfolding server_defaults
server_defaults_fixed c h = ground arith

paths_defaults-PathsIsComplete : (c : PathsConfig) → PathsIsComplete (paths_defaults c)
unfolding paths_defaults ◌=ₛ◌
paths_defaults-PathsIsComplete c = record {
  vm_config_dir = default_text-HasText _ c.vm_config_dir refl;
  state_dir = default_text-HasText _ c.state_dir refl;
  iso_dir = default_text-HasText _ c.iso_dir refl;
  disk_dir = default_text-HasText _ c.disk_dir refl;
  template_dir = default_text-HasText _ c.template_dir refl;
  cloud_init_dir = default_text-HasText _ c.cloud_init_dir refl;
  log_dir = default_text-HasText _ c.log_dir refl;
  console_log_dir = default_text-HasText _ c.console_log_dir refl;
}

paths_defaults_fixed : (c : PathsConfig) → PathsIsComplete c → paths_defaults c ≡ c
unfolding paths_defaults
paths_defaults_fixed c h = ground arith

vm_defaults-DefaultsIsComplete : (c : DefaultsConfig) → DefaultsIsComplete (vm_defaults c)
unfolding vm_defaults ◌=ₛ◌
vm_defaults-DefaultsIsComplete c = record {
  cpu = default_int-HasInt _ c.cpu refl;
  memory = default_text-HasText _ c.memory refl;
  disk_size = default_text-HasText _ c.disk_size refl;
  disk_type = default_text-HasText _ c.disk_type refl;
  zpool = default_text-HasText _ c.zpool refl;
  network_bridge = default_text-HasText _ c.network_bridge refl;
  loader = default_text-HasText _ c.loader refl;
  uefi_firmware = default_text-HasText _ c.uefi_firmware refl;
}

vm_defaults_fixed : (c : DefaultsConfig) → DefaultsIsComplete c → vm_defaults c ≡ c
unfolding vm_defaults
vm_defaults_fixed c h = ground arith

vnc_defaults-VncIsComplete : (c : VncConfig) → VncIsComplete (vnc_defaults c)
unfolding vnc_defaults ◌=ₛ◌
vnc_defaults-VncIsComplete c = record {
  base_port = default_int-HasInt _ c.base_port refl;
  bind = default_text-HasText _ c.bind refl;
  width = default_int-HasInt _ c.width refl;
  height = default_int-HasInt _ c.height refl;
}

vnc_defaults_fixed : (c : VncConfig) → VncIsComplete c → vnc_defaults c ≡ c
unfolding vnc_defaults
vnc_defaults_fixed c h = ground arith

limits_defaults-LimitsIsComplete : (c : LimitsConfig) → LimitsIsComplete (limits_defaults c)
unfolding limits_defaults ◌=ₛ◌
limits_defaults-LimitsIsComplete c = record {
  max_vms = default_int-HasInt _ c.max_vms refl;
  max_cpu_per_vm = default_int-HasInt _ c.max_cpu_per_vm refl;
  max_memory_per_vm = default_text-HasText _ c.max_memory_per_vm refl;
  max_iso_storage = default_text-HasText _ c.max_iso_storage refl;
  max_disk_storage = default_text-HasText _ c.max_disk_storage refl;
  max_template_storage = default_text-HasText _ c.max_template_storage refl;
  max_iso_size = default_text-HasText _ c.max_iso_size refl;
  max_disk_size = default_text-HasText _ c.max_disk_size refl;
}

limits_defaults_fixed : (c : LimitsConfig) → LimitsIsComplete c → limits_defaults c ≡ c
unfolding limits_defaults
limits_defaults_fixed c h = ground arith

console_defaults_fixed : (c : ConsoleConfig) → HasInt c.max_log_files → console_defaults c ≡ c
unfolding console_defaults
console_defaults_fixed c h = ground arith

-- After `setDefaults` every setting that has a default is present.
pub set_defaults-IsComplete : (c : Config) → IsComplete (set_defaults c)
unfolding set_defaults
set_defaults-IsComplete c = record {
  server = server_defaults-ServerIsComplete c.server;
  paths = paths_defaults-PathsIsComplete c.paths;
  defaults = vm_defaults-DefaultsIsComplete c.defaults;
  vnc = vnc_defaults-VncIsComplete c.vnc;
  limits = limits_defaults-LimitsIsComplete c.limits;
  console = default_int-HasInt _ c.console.max_log_files refl;
}

-- `setDefaults` changes nothing in a configuration whose settings are all present.
pub set_defaults_fixed : (c : Config) → IsComplete c → set_defaults c ≡ c
unfolding set_defaults
set_defaults_fixed c h = λ i. record {
  server = server_defaults_fixed c.server h.server i;
  paths = paths_defaults_fixed c.paths h.paths i;
  defaults = vm_defaults_fixed c.defaults h.defaults i;
  vnc = vnc_defaults_fixed c.vnc h.vnc i;
  limits = limits_defaults_fixed c.limits h.limits i;
  console = console_defaults_fixed c.console h.console i;
  cleanup = c.cleanup;
}

-- `setDefaults` is idempotent.
pub set_defaults_idem : (c : Config) → set_defaults (set_defaults c) ≡ set_defaults c
set_defaults_idem c = set_defaults_fixed (set_defaults c) (set_defaults-IsComplete c)
