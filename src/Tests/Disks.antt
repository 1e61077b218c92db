-- ===== src/Tests/Disks.antt =====
-- Sizes, disks and bridges on concrete inputs.
use bhyve_mcp.Common.{
  ℕ, List, ◌*◌, ltb, if◌then◌else◌, pos, negsuc, ◌<◌, ◌^◌, ◌≡◌, ◌≢◌, refl, some, [], ◌∷◌, true,
  false, arith, ◌=ₛ◌, codes, show_ℕ,
}
use bhyve_mcp.Common.FilePath
use bhyve_mcp.Common.Words.{split}
use bhyve_mcp.Host.{bad, run, calls_after, succeeds, Host, good, bad}
use bhyve_mcp.Size.{
  split_unit, to_upper, trim_space, u64, parse_size_u64, parse_size_i64, number, refused,
  invalid_syntax, out_of_range, digits_loop, i64,
}
use bhyve_mcp.Size.Digits.{value}
use bhyve_mcp.Size.Agreement.{IsI64, parse_size-agree}
use bhyve_mcp.Size.Units.{giga, mega, size_text, parse_size_u64-size_text, parse_size_i64-size_text}
use bhyve_mcp.Disk.{Disks, create, resize, clone_zvol, dataset, new_dataset}
use bhyve_mcp.Disk.Raw.{truncate, truncate_calls}
use bhyve_mcp.Disk.Volumes.{clone_zvol-snapshot, new_dataset-ne-dataset}
use bhyve_mcp.Disk.Listing.{list, list-Returns, Returns}
use bhyve_mcp.Net.{create_switch, delete_switch, members}
use bhyve_mcp.Net.Switches.{call, create_switch-calls, delete_switch-calls}
use bhyve_mcp.Tests.Hosts.{willing, refusing, denied}

size_with_spaces : parse_size_u64 (codes " 10g\t") ≡ number 10737418240
unfolding parse_size_u64 digits_loop
size_with_spaces = refl

-- 2 ^ 34 gigabytes wrap around to nothing.
size_wraps : parse_size_u64 (codes "17179869184G") ≡ number 0
unfolding parse_size_u64 digits_loop
size_wraps = refl

size_too_large : parse_size_u64 (codes "18446744073709551616") ≡ refused out_of_range
unfolding parse_size_u64 digits_loop
size_too_large = refl

-- A limit of 8589934592G becomes a negative number.
limit_wraps : parse_size_i64 (codes "8589934592G") ≡ number (negsuc 9223372036854775807)
unfolding parse_size_i64 digits_loop
limit_wraps = refl

negative_limit : parse_size_i64 (codes "-3K") ≡ number (negsuc 3071)
unfolding parse_size_i64 digits_loop
negative_limit = refl

fraction : parse_size_u64 (codes "1.5G") ≡ refused invalid_syntax
unfolding parse_size_u64 digits_loop
fraction = refl

parse_size_u64-size_text_example : parse_size_u64 (size_text true mega 512) ≡ number 536870912
parse_size_u64-size_text_example = parse_size_u64-size_text true mega 512 (omega arith)

-- A size whose int64 is negative.
parse_size-agree_example :
    (t : List ℕ) × (k m : ℕ) × (split_unit (to_upper (trim_space (codes "8589934592G"))) ≡ (t, k))
    × (value 0 t ≡ some m)
    × (m < 2 ^ 64)
    × (9223372036854775808 ≡ u64 (m * k))
    × IsI64 (i64 (pos 9223372036854775808))
    × (parse_size_i64 (codes "8589934592G")
        ≡ (if ltb m (2 ^ 63) then number (i64 (pos 9223372036854775808)) else refused out_of_range))
unfolding parse_size_u64 digits_loop
parse_size-agree_example = parse_size-agree (codes "8589934592G") 9223372036854775808 refl

parse_size_i64-size_text_example :
    parse_size_i64 (size_text false giga 10) ≡ number (pos 10737418240)
unfolding parse_size_i64
parse_size_i64-size_text_example = parse_size_i64-size_text false giga 10 (omega arith)

abbrev disks : Disks
disks = record { disk_dir = "/var/lib/bhyve-mcp/disks"; zpool = "zroot" }

truncate_calls_example :
    (calls_after (create willing disks "d0" "20G" "raw" [])
      ≡ some (run (truncate disks "d0" 21474836480) ∷ []))
    × (calls_after (resize willing disks "d0" "20G" "raw" [])
        ≡ some (run (truncate disks "d0" 21474836480) ∷ []))
unfolding show_ℕ
truncate_calls_example = truncate_calls willing disks "d0" "20G" [] false giga 20 (omega arith) refl

truncate_words :
    truncate disks "d0" 21474836480
    ≡ "truncate" ∷ "-s" ∷ "21474836480" ∷ "/var/lib/bhyve-mcp/disks/d0.raw" ∷ []
unfolding show_ℕ FilePath.join
truncate_words = refl

-- The clone is refused once the snapshot is there.
abbrev clone_fails : Host
clone_fails = record willing {
  run = λ past words. elim past [ [] ↦ good "" | _ ∷ [] ↦ bad denied | _ ∷ _ ∷ _ ↦ good "" ];
}

clone_zvol-snapshot_example :
    calls_after (clone_zvol clone_fails disks "a" "b" [])
    ≡ some (
        run ("zfs" ∷ "destroy" ∷ "zroot/vm/a@clone-snap" ∷ [])
        ∷ run ("zfs" ∷ "clone" ∷ "zroot/vm/a@clone-snap" ∷ "zroot/vm/b" ∷ [])
        ∷ run ("zfs" ∷ "snapshot" ∷ "zroot/vm/a@clone-snap" ∷ [])
        ∷ [])
clone_zvol-snapshot_example = clone_zvol-snapshot clone_fails disks "a" "b" []

new_dataset_dot : new_dataset disks "disk0" ≡ "zroot/vm/./disk0"
unfolding FilePath.dir FilePath.base
new_dataset_dot = refl

new_dataset-ne-dataset_example : new_dataset disks "disk0" ≢ dataset disks "disk0"
unfolding FilePath.elements FilePath.is_rooted
new_dataset-ne-dataset_example = new_dataset-ne-dataset disks "disk0" (refl, refl) (λ e. cc e)

list-Returns_example : Returns (list refusing disks [])
list-Returns_example = list-Returns refusing disks []

create_switch-calls_example :
    (calls_after (create_switch clone_fails "br0" "em0" [])
      ≡ some (
          call ("br0" ∷ "destroy" ∷ [])
          ∷ call ("br0" ∷ "addm" ∷ "em0" ∷ [])
          ∷ call ("br0" ∷ "create" ∷ [])
          ∷ []))
    × (succeeds (create_switch clone_fails "br0" "em0" []) ≡ false)
unfolding ◌=ₛ◌
create_switch-calls_example = create_switch-calls clone_fails "br0" "em0" [] refl

abbrev two_members : Host
two_members = record willing {
  run = λ past words. good "br0: flags=8843\n\tmember: em0 flags=143\n\tmember: tap0\n";
}

delete_switch-calls_example :
    (calls_after (delete_switch two_members "br0" [])
      ≡ some (
          call ("br0" ∷ "destroy" ∷ [])
          ∷ call ("br0" ∷ "deletem" ∷ "tap0" ∷ [])
          ∷ call ("br0" ∷ "deletem" ∷ "em0" ∷ [])
          ∷ call ("br0" ∷ [])
          ∷ []))
    × (succeeds (delete_switch two_members "br0" []) ≡ true)
unfolding members split
delete_switch-calls_example = delete_switch-calls two_members "br0" []
