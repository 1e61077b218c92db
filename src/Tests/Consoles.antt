-- ===== src/Tests/Consoles.antt =====
-- Two consoles, and a system that keeps three logs.
use bhyve_mcp.Common.{
  is_some, ◌=ₛ◌, done, ◌⊎◌, true, false, ℕ, pos, String, ◌≡◌, refl, Option, none, some, [], ◌∷◌,
  length, done,
}
use bhyve_mcp.Common.Dict
use bhyve_mcp.Common.FilePath
use bhyve_mcp.Common.{◌=ₛ◌}
use bhyve_mcp.Host.{close_file, open_file, good, Host, History, Reply, good, bad, open_file}
use bhyve_mcp.Console.{ConsoleManager, get_log_path}
use bhyve_mcp.Console.Sessions.{
  open_console, close_console, ConsoleWorld, ReadReply, Devices, open_console,
}
use bhyve_mcp.Console.Sessions.{session}
use bhyve_mcp.Console.Sessions.Closing.{open_console-close_console}
use bhyve_mcp.Console.Rotation.{there, persist_log, Appending}
use bhyve_mcp.Console.Rotation.Shifting.{Files, effect}
use bhyve_mcp.Console.Rotation.Files.{carried_out, IsFileSystem, Rotated}
use bhyve_mcp.Console.Rotation.Persisting.{exceeds, Appended, line_of, persist_log-Appended}
use bhyve_mcp.Tests.Hosts.{willing, denied}

abbrev logs : Files
logs p =
    Dict.lookup p
      (("/log/web.log", "now") ∷ ("/log/web.log.0", "monday") ∷ ("/log/web.log.1", "sunday") ∷ [])

abbrev answered : {A : Type 0} → A → Option String → Reply A
answered a none = bad denied
answered a (some text) = good a

abbrev keeping_logs : Host
keeping_logs = record willing {
  stat = λ past p. answered 3 (effect past logs p);
  rename = λ past p q. answered tt (effect past logs p);
}

there-answered : (o : Option String) → there (answered 3 o) ≡ is_some o
there-answered none = refl
there-answered (some text) = refl

carried_out-answered : (o : Option String) → carried_out (answered tt o) ≡ is_some o
carried_out-answered none = refl
carried_out-answered (some text) = refl

keeping_logs-IsFileSystem : IsFileSystem keeping_logs logs
keeping_logs-IsFileSystem = record {
  found = λ past p. there-answered (effect past logs p);
  renamed = λ past p q. carried_out-answered (effect past logs p);
}

abbrev writing : Appending
writing = record {
  open_append = λ past p. good tt;
  append_text = λ past p text. good tt;
  timestamp = λ past. "noon";
}

-- Two rotated logs are kept, and a log has at most two bytes.
abbrev small_logs : ConsoleManager
small_logs = record { log_dir = "/log"; max_log_size = pos 2; max_log_files = pos 2; consoles = [] }

persist_log-Appended_example :
    (now mid : History) × (persist_log keeping_logs writing small_logs "web" "login:" []
      ≡ done tt now)
    × ((exceeds (keeping_logs.stat [] "/log/web.log") (pos 2) ≡ true)
          × Rotated "/log/web.log" 1 (effect [] logs) (effect mid logs)
        ⊎ (exceeds (keeping_logs.stat [] "/log/web.log") (pos 2) ≡ false)
          × (effect mid logs ≡ effect [] logs))
    × Appended "/log/web.log"
        (line_of writing mid "/log/web.log" "login:")
        (effect mid logs)
        (effect now logs)
unfolding get_log_path FilePath.join
persist_log-Appended_example =
    persist_log-Appended keeping_logs writing small_logs "web" "login:" 1 [] logs
      keeping_logs-IsFileSystem (record { opened = λ past p. refl; appended = λ past p text. refl })
      refl

-- Each file has its own number.
abbrev devices : Devices
devices = record {
  open_file = λ past device. good (length past);
  close_file = λ past n. good tt;
  read_some = λ past n timeout. ReadReply.timed_out;
  write_some = λ past n text. good tt;
}

abbrev console_manager : ConsoleManager
console_manager = record {
  log_dir = "/log";
  max_log_size = pos 1024;
  max_log_files = pos 5;
  consoles = [];
}

abbrev at_first : ConsoleWorld
at_first = record {
  manager = record console_manager {
    consoles = ("db", record { vm_name = "db"; device = "/dev/nmdm1B"; file = 0 }) ∷ [];
  };
  history = open_file "/dev/nmdm1B" ∷ [];
}

abbrev web_open : ConsoleWorld
web_open = record {
  manager = record console_manager {
    consoles =
        ("db", record { vm_name = "db"; device = "/dev/nmdm1B"; file = 0 })
        ∷ ("web", record { vm_name = "web"; device = "/dev/nmdm0B"; file = 1 })
        ∷ [];
  };
  history = open_file "/dev/nmdm0B" ∷ at_first.history;
}

open_console-close_console_example :
    (n : ℕ) × (t : ConsoleWorld) × (devices.open_file at_first.history "/dev/nmdm0B" ≡ good n)
    × (close_console devices "web" web_open ≡ done tt t)
    × (t.history ≡ close_file n ∷ open_file "/dev/nmdm0B" ∷ at_first.history)
    × ((i : String) → session i t ≡ session i at_first)
unfolding open_console Dict.lookup Dict.insert ◌=ₛ◌
open_console-close_console_example =
    open_console-close_console devices "web" "/dev/nmdm0B" at_first web_open refl (λ n. refl)
