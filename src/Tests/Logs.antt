-- ===== src/Tests/Logs.antt =====
-- A log of three lines.
use bhyve_mcp.Common.{pos, ◌≡◌, refl, none, [], ◌∷◌, done}
use bhyve_mcp.Host.{good, open_file, read_all}
use bhyve_mcp.Console.{LogFiles, get_log_path, read_log}
use bhyve_mcp.Console.Log.{read_log-last}

abbrev three_lines : LogFiles
three_lines = record {
  open_file = λ past path. good tt;
  scan = λ past path. record { lines = "boot" ∷ "login:" ∷ "root" ∷ []; problem = none };
}

read_log-last_example :
    read_log three_lines "/log" "web" (pos 2) []
    ≡ done
        ("login:" ∷ "root" ∷ [])
        (read_all (get_log_path "/log" "web") ∷ open_file (get_log_path "/log" "web") ∷ [])
read_log-last_example = read_log-last three_lines "/log" "web" 2 [] refl refl
