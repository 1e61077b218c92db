-- ===== src/Console.antt =====
-- The console manager (internal/console/manager.go): its state, and the log of a machine as `ReadLog`
-- gives it. `Sessions` has the consoles that are open, `Rotation` the writing of logs; `parseSize`
-- stands in Size.
pub mod Log
pub mod Sessions
pub mod Rotation
use bhyve_mcp.Common.{
  ℕ, ℤ, pos, gtb, codes, context, String, ◌<>◌, Bool, true, false, Option, none, some, List, [],
  ◌∷◌, ◌++◌, length, drop, Exec, pure, throw, ◌>>=◌, ◌>>◌, if◌then◌else◌,
}
use bhyve_mcp.Common.FilePath
use bhyve_mcp.Common.Dict.{Dict}
use bhyve_mcp.Host.{Host, Reply, good, bad, History, ask, need, open_file, read_all, mkdir_all}
use bhyve_mcp.Size.{Parsed, number, refused, parse_size_i64}

-- A session with the console of a machine; its file is a number that tells apart the files that were
-- opened. The time of the last reading, which nothing reads, is left out.
pub record ConsoleSession : Type 0 where
  pub vm_name : String
  pub device : String
  pub file : ℕ

pub record ConsoleManager : Type 0 where
  pub log_dir : String
  pub max_log_size : ℤ
  pub max_log_files : ℤ
  pub consoles : Dict ConsoleSession

-- A size that does not parse is 100 MB.
abbrev size_or_default : Parsed ℤ → ℤ
size_or_default (number n) = n
size_or_default (refused _) = pos 104857600

unfoldable pub new_console_manager : Host → String → String → ℤ → Exec History ConsoleManager
unfolding parse_size_i64
new_console_manager h log_dir max_log_size max_log_files = do
  context "failed to create console log directory"
      (need (λ past. h.mkdir_all past log_dir) (mkdir_all log_dir))
  pure (record {
    log_dir = log_dir;
    max_log_size = size_or_default (parse_size_i64 (codes max_log_size));
    max_log_files = max_log_files;
    consoles = [];
  })

-- What a bufio.Scanner gives of a file: its lines, and the error that ends them.
pub record Scan : Type 0 where
  pub lines : List String
  pub problem : Option String

pub record LogFiles : Type 0 where
  pub open_file : History → String → Reply (Unit {0})
  pub scan : History → String → Scan

unfoldable pub get_log_path : String → String → String
get_log_path log_dir name = FilePath.join log_dir (name <> ".log")

-- The loop over the lines: the first line goes when there are more than `n`.
unfoldable pub keep_last : {A : Type 0} → ℤ → List A → List A → List A
keep_last n result [] = result
keep_last n result (x ∷ xs) =
    let all = result ++ (x ∷ []) in
    keep_last n (if gtb (pos (length all)) n then drop 1 all else all) xs

module _ (f : LogFiles) where
  scanned : List String → Option String → Exec History (List String)
  scanned result none = pure result
  scanned result (some e) = throw ("failed to read log file: " <> e)

  -- The method `ReadLog`.
  unfoldable pub read_log : String → String → ℤ → Exec History (List String)
  unfolding scanned
  read_log log_dir name n = do
    opened ←
        ask (λ past. f.open_file past (get_log_path log_dir name))
          (open_file (get_log_path log_dir name))
    elim opened [
      | bad e ↦ if e.not_exist then pure [] else throw ("failed to open log file: " <> e.message)
      | good _ ↦ do
        found ←
            ask (λ past. f.scan past (get_log_path log_dir name))
              (read_all (get_log_path log_dir name))
        scanned (keep_last n [] found.lines) found.problem
    ]
