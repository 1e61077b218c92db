-- ===== src/Console/Rotation/Persisting.antt =====
-- What `PersistLog` does to a file system.
use bhyve_mcp.Common.{
  ℤ, negsuc, Bool, ltb, ◌∙◌, ℕ, suc, pos, String, ◌<>◌, ◌≡◌, ◌≢◌, refl, ◌⊎◌, inl, inr, some, true,
  false, arith, done, eq_iff, eq_refl, Bool-cases, ◌∷◌,
}
use bhyve_mcp.Host.{Reply, bad, Host, History, good, stat, open_append, append_text}
use bhyve_mcp.Console.{ConsoleManager, get_log_path}
use bhyve_mcp.Console.Rotation.{Appending, rotated, too_large, append_line, persist_log}
use bhyve_mcp.Console.Rotation.Shifting.{Files, put, content, effect}
use bhyve_mcp.Console.Rotation.Files.{IsFileSystem, Rotated, rotate_log-Rotated}

-- Files can be opened to append to them, and take what is appended.
pub record IsWritable (a : Appending) : Type 0 where
  pub opened : (past : History) (p : String) → a.open_append past p ≡ good tt
  pub appended : (past : History) (p text : String) → a.append_text past p text ≡ good tt

-- The text stands at the end of the file, and no other file has changed.
pub record Appended (path text : String) (f g : Files) : Type 0 where
  pub last : g path ≡ some (content (f path) <> text)
  pub others : (p : String) → p ≢ path → g p ≡ f p

module _ (path text : String) (f : Files) where
  abbrev opened_file : Files
  opened_file = put path (some (content (f path))) f

  append-Appended :
      Appended path text f (put path (some (content (opened_file path) <> text)) opened_file)
  append-Appended = record {
    last = ground (arith, eq_refl path);
    others = λ p n. ground (arith, eq_iff path p, n);
  }

-- The line that is written once the log has been opened.
abbrev pub line_of : Appending → History → String → String → String
line_of a past path text = "[" <> a.timestamp (open_append path ∷ past) <> "] " <> text

append_line-done :
    (h : Host) (a : Appending) (path text : String) (past : History)
    → IsWritable a
    → append_line h a path text past
      ≡ done tt (append_text path (line_of a past path text) ∷ open_append path ∷ past)
unfolding append_line
append_line-done h a path text past w = ground (
  arith,
  w.opened past path,
  w.appended (open_append path ∷ past) path (line_of a past path text),
)

-- A file that is there has more bytes than the limit.
abbrev pub exceeds : Reply ℕ → ℤ → Bool
exceeds (good size) (pos most) = ltb most size
exceeds (good size) (negsuc n) = true
exceeds (bad _) most = false

too_large-exceeds : (h : Host) (r : Reply ℕ) (most : ℤ) → too_large h r most ≡ exceeds r most
too_large-exceeds h (good size) (pos most) = refl
too_large-exceeds h (good size) (negsuc n) = refl
too_large-exceeds h (bad f) (pos most) = refl
too_large-exceeds h (bad f) (negsuc n) = refl

-- On a file system whose files can be written, PersistLog with room for `k + 1` rotated logs
-- succeeds: it has rotated the logs if the log was there with more bytes than the limit (the logs numbered below `k` one up, the
-- log as number 0, no other file changed but number `k`), and otherwise left all files as they were,
-- and has then put a line that ends with the text at the end of the log.
pub persist_log-Appended :
    (h : Host) (a : Appending) (m : ConsoleManager) (name text : String) (k : ℕ) (past : History)
    (f : Files)
    → IsFileSystem h f
    → IsWritable a
    → m.max_log_files ≡ pos (suc k)
    → let path = get_log_path m.log_dir name in
      (now mid : History) × (persist_log h a m name text past ≡ done tt now)
      × ((exceeds (h.stat past path) m.max_log_size ≡ true)
            × Rotated path k (effect past f) (effect mid f)
          ⊎ (exceeds (h.stat past path) m.max_log_size ≡ false) × (effect mid f ≡ effect past f))
      × Appended path (line_of a mid path text) (effect mid f) (effect now f)
unfolding persist_log rotated
persist_log-Appended h a m name text k past f sys w room =
    let path = get_log_path m.log_dir name in
    elim (Bool-cases (exceeds (h.stat past path) m.max_log_size)) [
      | inl t ↦
          let (mid, e, r) = rotate_log-Rotated h path k (stat path ∷ past) f sys in
          (
            append_text path (line_of a mid path text) ∷ open_append path ∷ mid,
            mid,
            rw (too_large-exceeds h (h.stat past path) m.max_log_size ∙ t, room)
                (ground (arith, e, append_line-done h a path text mid w)),
            inl (t, r),
            append-Appended path (line_of a mid path text) (effect mid f),
          )
      | inr t ↦
          let mid = stat path ∷ past in
          (
            append_text path (line_of a mid path text) ∷ open_append path ∷ mid,
            mid,
            rw (too_large-exceeds h (h.stat past path) m.max_log_size ∙ t)
                (ground (arith, append_line-done h a path text mid w)),
            inr (t, refl),
            append-Appended path (line_of a mid path text) (effect mid f),
          )
    ]
