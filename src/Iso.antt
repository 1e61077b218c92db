-- ===== src/Iso.antt =====
-- The ISO downloader (internal/iso/downloader.go). Its `parseSize` stands in Size. That a file or a
-- body is closed, and how long a download took, are left out.
pub mod Downloads
use bhyve_mcp.Common.{
  ℕ, ℤ, pos, gtb, codes, show_ℕ, show_ℤ, ◌==◌, ◌=ₛ◌, String, ◌<>◌, Bool, true, false, not, ◌||◌,
  Option, none, some, List, [], ◌∷◌, Exec, Result, ok, err, pure, throw, throw_if, catch, context,
  lift_result, ◌>>=◌, ◌>>◌, if◌then◌else◌,
}
use bhyve_mcp.Common.FilePath
use bhyve_mcp.Common.Words.{before_suffix}
use bhyve_mcp.Host.{
  Host, Reply, good, bad, Entry, History, need, ask, mkdir_all, stat, remove, rename, read_dir,
  fetch, create_file, copy_body, open_file, read_all,
}
use bhyve_mcp.Size.{Parsed, number, refused, parse_size_i64}

-- The answer to a request: `content_length` is -1 if it is not known.
pub record Response : Type 0 where
  pub status : ℕ
  pub content_length : ℤ

-- net/http, io, crypto/sha256 and strings: the request of a URL, its answer, a new file, the bytes
-- that are copied from the body to a file, a file that is opened and read to its end, the number of
-- bytes, their checksum in hexadecimal digits, and equality of texts up to case.
pub record Web : Type 0 where
  pub new_request : String → Result (Unit {0})
  pub fetch : History → String → Reply Response
  pub create_file : History → String → Reply (Unit {0})
  pub copy_body : History → String → Reply String
  pub open_file : History → String → Reply (Unit {0})
  pub read_all : History → String → Reply String
  pub size : String → ℤ
  pub sha256 : String → String
  pub equal_fold : String → String → Bool

pub record Downloader : Type 0 where
  pub iso_dir : String
  pub temp_dir : String
  pub max_size : ℤ

pub record DownloadResult : Type 0 where
  pub name : String
  pub path : String
  pub size : ℤ
  pub sha256 : String

-- A limit that does not parse is 10 GB.
abbrev or_default : Parsed ℤ → ℤ
or_default (number n) = n
or_default (refused _) = pos 10737418240

unfoldable pub new_downloader : Host → String → String → Exec History Downloader
new_downloader h iso_dir max_size = do
  context "failed to create ISO directory"
      (need (λ past. h.mkdir_all past iso_dir) (mkdir_all iso_dir))
  pure (record {
    iso_dir = iso_dir;
    temp_dir = FilePath.join iso_dir ".tmp";
    max_size = or_default (parse_size_i64 (codes max_size));
  })

abbrev pub is_good : {A : Type 0} → Reply A → Bool
is_good (good _) = true
is_good (bad _) = false

abbrev pub temp_path : Downloader → String → String
temp_path d filename = FilePath.join d.temp_dir (filename <> ".part")

abbrev pub final_path : Downloader → String → String
final_path d filename = FilePath.join d.iso_dir filename

-- What `Verify` returns with the checksum: `true`, or `false` and an error "checksum mismatch".
pub data Verdict : Type 0 where
  verified mismatch : String → Verdict

-- The map of `GetInfo`, but for the time of the last change.
pub record IsoInfo : Type 0 where
  pub name : String
  pub path : String
  pub size : ℕ
  pub sha256 : String

abbrev verdict : Bool → String → Verdict
verdict true sum = verified sum
verdict false sum = mismatch sum

module _ (h : Host) (web : Web) where
  -- `if err := m; err != nil { os.Remove(temp); return fmt.Errorf("text: %w", err) }`
  abbrev or_remove : {A : Type 0} → String → String → Exec History A → Exec History A
  or_remove temp text m =
      catch m (λ e. ask (λ past. h.remove past temp) (remove temp) >> throw (text <> ": " <> e))

  -- The checksum is compared if one is expected.
  abbrev pub matches : String → String → Bool
  matches actual expected = (expected =ₛ "") || web.equal_fold actual expected

  verify_checksum : String → String → String → Exec History (Unit {0})
  verify_checksum temp actual expected = elim (matches actual expected) [
    | true ↦ pure tt
    | false ↦ do
      ask (λ past. h.remove past temp) (remove temp)
      throw ("checksum mismatch: expected " <> expected <> ", got " <> actual)
  ]

  unfoldable pub download : Downloader → String → String → String → Exec History DownloadResult
  unfolding verify_checksum
  download d url filename expected = do
    context "failed to create temp directory"
        (need (λ past. h.mkdir_all past d.temp_dir) (mkdir_all d.temp_dir))
    found ← ask (λ past. h.stat past (final_path d filename)) (stat (final_path d filename))
    throw_if (is_good found) ("ISO already exists: " <> filename)
    context "failed to create request" (lift_result (web.new_request url))
    resp ← context "failed to start download" (need (λ past. web.fetch past url) (fetch url))
    throw_if (not (resp.status == 200)) ("download failed with status: " <> show_ℕ resp.status)
    throw_if (gtb resp.content_length d.max_size) (
        "ISO size exceeds maximum allowed ("
        <> show_ℤ resp.content_length
        <> " > "
        <> show_ℤ d.max_size
        <> ")")
    context "failed to create temp file" (
        need (λ past. web.create_file past (temp_path d filename))
          (create_file (temp_path d filename)))
    body ← or_remove (temp_path d filename) "download failed" (
        need (λ past. web.copy_body past (temp_path d filename)) (copy_body (temp_path d filename)))
    verify_checksum (temp_path d filename) (web.sha256 body) expected
    or_remove (temp_path d filename) "failed to move ISO to final location" (
        need (λ past. h.rename past (temp_path d filename) (final_path d filename))
          (rename (temp_path d filename) (final_path d filename)))
    pure (record {
      name = filename;
      path = final_path d filename;
      size = web.size body;
      sha256 = web.sha256 body;
    })

  -- The method `Verify`.
  unfoldable pub verify : Downloader → String → String → Exec History Verdict
  verify d filename expected = do
    context "failed to open ISO" (
        need (λ past. web.open_file past (final_path d filename))
          (open_file (final_path d filename)))
    text ← context "failed to calculate checksum" (
        need (λ past. web.read_all past (final_path d filename)) (read_all (final_path d filename)))
    pure (verdict (matches (web.sha256 text) expected) (web.sha256 text))

  -- The method `GetInfo`.
  unfoldable pub get_info : Downloader → String → Exec History IsoInfo
  get_info d filename = do
    size ←
        context "failed to stat ISO"
          (need (λ past. h.stat past (final_path d filename)) (stat (final_path d filename)))
    need (λ past. web.open_file past (final_path d filename)) (open_file (final_path d filename))
    text ←
        need (λ past. web.read_all past (final_path d filename)) (read_all (final_path d filename))
    pure (record {
      name = filename;
      path = final_path d filename;
      size = size;
      sha256 = web.sha256 text;
    })

module _ (h : Host) where
  unfoldable pub delete : Downloader → String → Exec History (Unit {0})
  delete d filename = do
    reply ← ask (λ past. h.remove past (final_path d filename)) (remove (final_path d filename))
    elim reply [
      | good _ ↦ pure tt
      | bad f ↦ throw (
          if f.not_exist
          then "ISO not found: " <> filename
          else "failed to delete ISO: " <> f.message)
    ]

  abbrev is_partial : Option String → Bool
  is_partial none = false
  is_partial (some _) = true

  -- The names of the files, without those that a download is writing.
  unfoldable pub iso_names : List Entry → List String
  unfolding before_suffix
  iso_names [] = []
  iso_names (e ∷ es) =
      let rest = iso_names es in
      if e.is_dir || is_partial (before_suffix ".part" e.name) then rest else e.name ∷ rest

  unfoldable pub list : Downloader → Exec History (List String)
  list d = do
    entries ←
        context "failed to read ISO directory"
          (need (λ past. h.read_dir past d.iso_dir) (read_dir d.iso_dir))
    pure (iso_names entries)
