-- ===== src/Iso/Downloads.antt =====
-- What `Download` does on every branch.
use bhyve_mcp.Common.{
  String, ◌≡◌, Bool, true, false, ◌&&◌, not, some, ◌∷◌, ok, err, Result, arith, ◌==◌, gtb,
  if◌then◌else◌, done, ◌=ₛ◌,
}
use bhyve_mcp.Host.{
  Host, History, Reply, good, bad, calls_after, succeeds, mkdir_all, stat, remove, rename, fetch,
  create_file, copy_body,
}
use bhyve_mcp.Iso.{
  Downloader, Web, Response, DownloadResult, download, is_good, temp_path, final_path, matches,
  verify_checksum,
}

abbrev is_ok : {A : Type 0} → Result A → Bool
is_ok (ok _) = true
is_ok (err _) = false

-- An answer that a download goes on with.
abbrev pub fits : Downloader → Reply Response → Bool
fits d (good r) = (r.status == 200) && not (gtb r.content_length d.max_size)
fits d (bad _) = false

module _ (h : Host) (web : Web) (d : Downloader) (url filename expected : String)
    (past : History) where
  abbrev pub checked : History
  checked = stat (final_path d filename) ∷ mkdir_all d.temp_dir ∷ past

  abbrev pub fetched : History
  fetched = fetch url ∷ checked

  abbrev pub created : History
  created = create_file (temp_path d filename) ∷ fetched

  abbrev pub copied : History
  copied = copy_body (temp_path d filename) ∷ created

  abbrev pub moved : History
  moved = rename (temp_path d filename) (final_path d filename) ∷ copied

  -- The download gets as far as an open temporary file.
  abbrev pub starts : Bool
  starts =
      is_good (h.mkdir_all past d.temp_dir)
      && (not (is_good (h.stat (mkdir_all d.temp_dir ∷ past) (final_path d filename)))
          && (is_ok (web.new_request url)
              && (fits d (web.fetch checked url)
                  && is_good (web.create_file fetched (temp_path d filename)))))

  -- The body is copied, and its checksum is the expected one, if there is one.
  abbrev accepted : Reply String → Bool
  accepted (good body) = matches h web (web.sha256 body) expected
  accepted (bad _) = false

  abbrev pub arrives : Bool
  arrives = accepted (web.copy_body created (temp_path d filename))

  abbrev pub moves : Bool
  moves = is_good (h.rename copied (temp_path d filename) (final_path d filename))

  -- `Download` succeeds exactly when a temporary file could be opened for an answer that fits, its
  -- bytes have the expected checksum, and the file could be moved to its place.
  pub download-success :
      succeeds (download h web d url filename expected past) ≡ (starts && (arrives && moves))
  unfolding download verify_checksum
  download-success = ground arith

  -- A `Download` that has opened its temporary file either moves it to its place, once the checksum is
  -- right, as its last call, or removes it as its last call.
  pub download-calls :
      starts ≡ true
      → calls_after (download h web d url filename expected past)
        ≡ some (
            if arrives
            then (if moves then moved else remove (temp_path d filename) ∷ moved)
            else remove (temp_path d filename) ∷ copied)
  unfolding download verify_checksum
  download-calls s = ground arith

  -- What a `Download` that succeeded returns, when a checksum was expected: the checksum is, up to
  -- case, the expected one, and the last call has moved the file to the path that it returns.
  pub download-verified :
      (r : DownloadResult) (after : History)
      → download h web d url filename expected past ≡ done r after
      → (expected =ₛ "") ≡ false
      → (web.equal_fold r.sha256 expected ≡ true)
        × (after ≡ rename (temp_path d filename) r.path ∷ copied)
  unfolding download verify_checksum
  download-verified r after e n = ground arith
