-- ===== src/Tests/Isos.antt =====
-- Downloads from a web that is at hand.
use bhyve_mcp.Common.{pos, negsuc, ◌=ₛ◌, ◌≡◌, refl, true, some, [], ◌∷◌, ok, ◌&&◌}
use bhyve_mcp.Common.FilePath
use bhyve_mcp.Host.{Host, good, bad, calls_after, succeeds, rename, remove}
use bhyve_mcp.Iso.{Downloader, Web, download, temp_path}
use bhyve_mcp.Iso.Downloads.{
  starts, arrives, moves, moved, copied, download-calls, download-success, download-verified,
}
use bhyve_mcp.Tests.Hosts.{willing, denied}

-- Every URL has this body, whose checksum is said to be `ab12`.
abbrev web : Web
web = record {
  new_request = λ url. ok tt;
  fetch = λ past url. good (record { status = 200; content_length = negsuc 0 });
  create_file = λ past path. good tt;
  copy_body = λ past path. good "installer";
  open_file = λ past path. good tt;
  read_all = λ past path. good "installer";
  size = λ text. pos 9;
  sha256 = λ text. "ab12";
  equal_fold = λ s t. s =ₛ t;
}

-- No ISO is there yet.
abbrev empty : Host
empty = record willing { stat = λ past path. bad denied }

abbrev downloader : Downloader
downloader = record { iso_dir = "/isos"; temp_dir = "/isos/.tmp"; max_size = pos 4 }

download-success_example :
    succeeds (download empty web downloader "http://a/b.iso" "b.iso" "ab12" []) ≡ (
      starts empty web downloader "http://a/b.iso" "b.iso" "ab12" []
      && (arrives empty web downloader "http://a/b.iso" "b.iso" "ab12" []
          && moves empty web downloader "http://a/b.iso" "b.iso" "ab12" []))
download-success_example = download-success empty web downloader "http://a/b.iso" "b.iso" "ab12" []

-- The checksum is another one.
download-calls_example :
    calls_after (download empty web downloader "http://a/b.iso" "b.iso" "cd34" [])
    ≡ some (
        remove (temp_path downloader "b.iso")
        ∷ copied empty web downloader "http://a/b.iso" "b.iso" "cd34" [])
unfolding ◌=ₛ◌
download-calls_example = download-calls empty web downloader "http://a/b.iso" "b.iso" "cd34" [] refl

download-verified_example :
    (web.equal_fold "ab12" "ab12" ≡ true)
    × (moved empty web downloader "http://a/b.iso" "b.iso" "ab12" []
        ≡ rename (temp_path downloader "b.iso") (FilePath.join "/isos" "b.iso")
          ∷ copied empty web downloader "http://a/b.iso" "b.iso" "ab12" [])
unfolding download ◌=ₛ◌
download-verified_example =
    download-verified empty web downloader "http://a/b.iso" "b.iso" "ab12" []
      (record {
        name = "b.iso";
        path = FilePath.join "/isos" "b.iso";
        size = pos 9;
        sha256 = "ab12";
      })
      (moved empty web downloader "http://a/b.iso" "b.iso" "ab12" []) refl refl
