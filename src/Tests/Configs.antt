-- ===== src/Tests/Configs.antt =====
-- Configurations with some settings left out.
use bhyve_mcp.Common.{pos, ◌≡◌, refl}
use bhyve_mcp.Config.{Config, set_defaults, zero_config}
use bhyve_mcp.Config.Defaults.{IsComplete, set_defaults-IsComplete}

abbrev partial : Config
partial = record zero_config { vnc = record (zero_config.vnc) { base_port = pos 6000 } }

set_defaults_keeps : (set_defaults partial).vnc.base_port ≡ pos 6000
unfolding set_defaults
set_defaults_keeps = refl

set_defaults-IsComplete_example : IsComplete (set_defaults partial)
set_defaults-IsComplete_example = set_defaults-IsComplete partial
