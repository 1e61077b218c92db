-- ===== src/Config.antt =====
-- internal/config/config.go: the settings of the server and of one VM, with their defaults.
pub mod Defaults
pub mod File
use bhyve_mcp.Common.{ℤ, pos, is_zero, String, ◌=ₛ◌, Bool, false, List, [], if◌then◌else◌}

pub record ServerConfig : Type 0 where
  pub transport : String
  pub port : ℤ
  pub bind : String
  pub log_level : String

pub record PathsConfig : Type 0 where
  pub vm_config_dir : String
  pub state_dir : String
  pub iso_dir : String
  pub disk_dir : String
  pub template_dir : String
  pub cloud_init_dir : String
  pub log_dir : String
  pub console_log_dir : String

pub record DefaultsConfig : Type 0 where
  pub cpu : ℤ
  pub memory : String
  pub disk_size : String
  pub disk_type : String
  pub zpool : String
  pub network_bridge : String
  pub loader : String
  pub uefi_firmware : String

pub record VncConfig : Type 0 where
  pub enabled : Bool
  pub base_port : ℤ
  pub bind : String
  pub width : ℤ
  pub height : ℤ

pub record LimitsConfig : Type 0 where
  pub max_vms : ℤ
  pub max_cpu_per_vm : ℤ
  pub max_memory_per_vm : String
  pub max_iso_storage : String
  pub max_disk_storage : String
  pub max_template_storage : String
  pub max_iso_size : String
  pub max_disk_size : String

pub record ConsoleConfig : Type 0 where
  pub persist : Bool
  pub log_dir : String
  pub max_log_size : String
  pub max_log_files : ℤ

pub record CleanupConfig : Type 0 where
  pub iso_max_age : String
  pub template_max_age : String
  pub dry_run : Bool

pub record Config : Type 0 where
  pub server : ServerConfig
  pub paths : PathsConfig
  pub defaults : DefaultsConfig
  pub vnc : VncConfig
  pub limits : LimitsConfig
  pub console : ConsoleConfig
  pub cleanup : CleanupConfig

pub record BootConfig : Type 0 where
  pub loader : String
  pub firmware : String
  pub disk : String
  pub device : String

pub record DiskConfig : Type 0 where
  pub disk_type : String
  pub path : String
  pub size : String
  pub read_only : Bool

pub record NetConfig : Type 0 where
  pub net_type : String
  pub bridge : String
  pub mac : String

pub record ConsoleDeviceConfig : Type 0 where
  pub console_type : String
  pub device : String

pub record VncDeviceConfig : Type 0 where
  pub enabled : Bool
  pub port : ℤ
  pub width : ℤ
  pub height : ℤ

pub record VmConfig : Type 0 where
  pub name : String
  pub cpu : ℤ
  pub memory : String
  pub boot : BootConfig
  pub disks : List DiskConfig
  pub network : List NetConfig
  pub console : List ConsoleDeviceConfig
  pub vnc : VncDeviceConfig
  pub flags : List String

-- `if s == "" { s = d }`
abbrev default_text : String → String → String
default_text d s = if s =ₛ "" then d else s

-- `if n == 0 { n = d }`
abbrev default_int : ℤ → ℤ → ℤ
default_int d n = if is_zero n then d else n

server_defaults : ServerConfig → ServerConfig
server_defaults c = record {
  transport = default_text "stdio" c.transport;
  port = default_int (pos 8080) c.port;
  bind = default_text "127.0.0.1" c.bind;
  log_level = default_text "info" c.log_level;
}

paths_defaults : PathsConfig → PathsConfig
paths_defaults c = record {
  vm_config_dir = default_text "/usr/local/etc/bhyve-mcp/vms" c.vm_config_dir;
  state_dir = default_text "/var/db/bhyve-mcp" c.state_dir;
  iso_dir = default_text "/var/lib/bhyve-mcp/isos" c.iso_dir;
  disk_dir = default_text "/var/lib/bhyve-mcp/disks" c.disk_dir;
  template_dir = default_text "/var/lib/bhyve-mcp/templates" c.template_dir;
  cloud_init_dir = default_text "/var/lib/bhyve-mcp/cloud-init" c.cloud_init_dir;
  log_dir = default_text "/var/log/bhyve-mcp" c.log_dir;
  console_log_dir = default_text "/var/log/bhyve-mcp/console" c.console_log_dir;
}

vm_defaults : DefaultsConfig → DefaultsConfig
vm_defaults c = record {
  cpu = default_int (pos 2) c.cpu;
  memory = default_text "2048M" c.memory;
  disk_size = default_text "20G" c.disk_size;
  disk_type = default_text "zvol" c.disk_type;
  zpool = default_text "zroot" c.zpool;
  network_bridge = default_text "vmbridge0" c.network_bridge;
  loader = default_text "uefi" c.loader;
  uefi_firmware = default_text "/usr/local/share/uefi-firmware/BHYVE_UEFI.fd" c.uefi_firmware;
}

vnc_defaults : VncConfig → VncConfig
vnc_defaults c = record {
  enabled = c.enabled;
  base_port = default_int (pos 5900) c.base_port;
  bind = default_text "127.0.0.1" c.bind;
  width = default_int (pos 1024) c.width;
  height = default_int (pos 768) c.height;
}

limits_defaults : LimitsConfig → LimitsConfig
limits_defaults c = record {
  max_vms = default_int (pos 10) c.max_vms;
  max_cpu_per_vm = default_int (pos 8) c.max_cpu_per_vm;
  max_memory_per_vm = default_text "32768M" c.max_memory_per_vm;
  max_iso_storage = default_text "50G" c.max_iso_storage;
  max_disk_storage = default_text "500G" c.max_disk_storage;
  max_template_storage = default_text "200G" c.max_template_storage;
  max_iso_size = default_text "10G" c.max_iso_size;
  max_disk_size = default_text "100G" c.max_disk_size;
}

console_defaults : ConsoleConfig → ConsoleConfig
console_defaults c = record c { max_log_files = default_int (pos 10) c.max_log_files }

-- The method `setDefaults`, with the struct after it.
unfoldable pub set_defaults : Config → Config
unfolding server_defaults paths_defaults vm_defaults vnc_defaults limits_defaults console_defaults
set_defaults c = record {
  server = server_defaults c.server;
  paths = paths_defaults c.paths;
  defaults = vm_defaults c.defaults;
  vnc = vnc_defaults c.vnc;
  limits = limits_defaults c.limits;
  console = console_defaults c.console;
  cleanup = c.cleanup;
}

-- `Config{}`: every field at Go's zero value.
abbrev pub zero_config : Config
zero_config = record {
  server = record { transport = ""; port = pos 0; bind = ""; log_level = "" };
  paths = record {
    vm_config_dir = "";
    state_dir = "";
    iso_dir = "";
    disk_dir = "";
    template_dir = "";
    cloud_init_dir = "";
    log_dir = "";
    console_log_dir = "";
  };
  defaults = record {
    cpu = pos 0;
    memory = "";
    disk_size = "";
    disk_type = "";
    zpool = "";
    network_bridge = "";
    loader = "";
    uefi_firmware = "";
  };
  vnc = record { enabled = false; base_port = pos 0; bind = ""; width = pos 0; height = pos 0 };
  limits = record {
    max_vms = pos 0;
    max_cpu_per_vm = pos 0;
    max_memory_per_vm = "";
    max_iso_storage = "";
    max_disk_storage = "";
    max_template_storage = "";
    max_iso_size = "";
    max_disk_size = "";
  };
  console = record { persist = false; log_dir = ""; max_log_size = ""; max_log_files = pos 0 };
  cleanup = record { iso_max_age = ""; template_max_age = ""; dry_run = false };
}

unfoldable pub default_config : Config
unfolding set_defaults
default_config = set_defaults zero_config
