-- ===== src/Console/Rotation.antt =====
-- `PersistLog` and `rotateLog`: a log that has grown too large is renamed, and older ones with it.
pub mod Shifting
pub mod Files
pub mod Persisting
use bhyve_mcp.Common.{
  ℕ, zero, suc, ◌-◌, ℤ, pos, negsuc, pred, gtb, show_ℕ, show_ℤ, String, ◌<>◌, Bool, true, false,
  Exec, pure, gets, context, ◌>>=◌, ◌>>◌,
}
use bhyve_mcp.Host.{
  Host, History, Reply, good, bad, ask, need, stat, remove, rename, open_append, append_text,
}
use bhyve_mcp.Console.{ConsoleManager, get_log_path}

-- A file that is opened to append to it, what is then appended, and the time that is written.
pub record Appending : Type 0 where
  pub open_append : History → String → Reply (Unit {0})
  pub append_text : History → String → String → Reply (Unit {0})
  pub timestamp : History → String

-- The name of the log that was rotated `i` times before.
abbrev pub numbered : String → ℕ → String
numbered base i = base <> "." <> show_ℕ i

-- How often the loop runs: from `n - 2` down to 0.
abbrev pub rounds : ℤ → ℕ
rounds (pos n) = n - 1
rounds (negsuc n) = 0

-- A file that is there, by `os.Stat`.
abbrev pub there : Reply ℕ → Bool
there (good _) = true
there (bad _) = false

module _ (h : Host) where
  -- The loop; the error of a rename is dropped.
  unfoldable pub shift : String → ℕ → Exec History (Unit {0})
  shift base zero = pure tt
  shift base (suc i) = do
    ask (λ past. h.rename past (numbered base i) (numbered base (suc i)))
        (rename (numbered base i) (numbered base (suc i)))
    shift base i

  -- The log itself becomes number 0, if it is there.
  set_aside : Bool → String → Exec History (Unit {0})
  set_aside false base = pure tt
  set_aside true base =
      need (λ past. h.rename past base (numbered base 0)) (rename base (numbered base 0))

  unfoldable pub rotate_log : String → ℤ → Exec History (Unit {0})
  unfolding shift set_aside
  rotate_log base n = do
    let oldest = base <> "." <> show_ℤ (pred n)
    ask (λ past. h.remove past oldest) (remove oldest)
    shift base (rounds n)
    found ← ask (λ past. h.stat past base) (stat base)
    set_aside (there found) base

  -- A log that is not there is not too large.
  abbrev pub too_large : Reply ℕ → ℤ → Bool
  too_large (good size) most = gtb (pos size) most
  too_large (bad _) most = false

  rotated : Bool → String → ℤ → Exec History (Unit {0})
  unfolding rotate_log
  rotated false path n = pure tt
  rotated true path n = context "failed to rotate log" (rotate_log path n)

  -- The text with the time before it, at the end of the log.
  unfoldable pub append_line : Appending → String → String → Exec History (Unit {0})
  append_line f path text = do
    context "failed to open log file" (need (λ past. f.open_append past path) (open_append path))
    line ← gets (λ past. "[" <> f.timestamp past <> "] " <> text)
    need (λ past. f.append_text past path line) (append_text path line)

  unfoldable pub persist_log :
      Appending → ConsoleManager → String → String → Exec History (Unit {0})
  unfolding rotated append_line
  persist_log f m name text = do
    let path = get_log_path m.log_dir name
    found ← ask (λ past. h.stat past path) (stat path)
    rotated (too_large found m.max_log_size) path m.max_log_files
    append_line f path text
