-- ===== src/Config/File.antt =====
-- Configuration files: `Load`, `LoadVMConfig` and `SaveVMConfig`. The YAML library is a parameter.
use bhyve_mcp.Common.{String, Exec, pure, context, lift_result, Result, ◌>>=◌, ◌>>◌}
use bhyve_mcp.Common.FilePath
use bhyve_mcp.Host.{Host, History, need, read_file, mkdir_all, write_file}
use bhyve_mcp.Config.{Config, VmConfig, set_defaults}

-- gopkg.in/yaml.v3, at the two types of the program.
pub record Yaml : Type 0 where
  pub unmarshal_config : String → Result Config
  pub unmarshal_vm_config : String → Result VmConfig
  pub marshal_vm_config : VmConfig → Result String

module _ (h : Host) (y : Yaml) where
  -- The method `Load`.
  unfoldable pub load : String → Exec History Config
  load path = do
    text ←
        context "failed to read config file" (need (λ past. h.read_file past path) (read_file path))
    cfg ← context "failed to parse config" (lift_result (y.unmarshal_config text))
    pure (set_defaults cfg)

  unfoldable pub load_vm_config : String → Exec History VmConfig
  load_vm_config path = do
    text ←
        context "failed to read VM config file"
          (need (λ past. h.read_file past path) (read_file path))
    context "failed to parse VM config" (lift_result (y.unmarshal_vm_config text))

  unfoldable pub save_vm_config : String → VmConfig → Exec History (Unit {0})
  save_vm_config path cfg = do
    context "failed to create config directory"
        (need (λ past. h.mkdir_all past (FilePath.dir path)) (mkdir_all (FilePath.dir path)))
    text ← context "failed to marshal VM config" (lift_result (y.marshal_vm_config cfg))
    context "failed to write VM config"
        (need (λ past. h.write_file past path text) (write_file path text))
