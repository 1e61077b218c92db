-- ===== src/Disk/Volumes.antt =====
-- ZFS volumes: the snapshot that a clone takes, and the names of the datasets.
use bhyve_mcp.Common.{String, ◌≡◌, false, some, List, [], ◌∷◌, arith, eq_iff, ◌≢◌, ◌<>◌, ap}
use mathlib.Core.Path.{subst₂}
use Prim.Native.String.{count}
use text.Mathlib.TextLemmas.{length-append}
use bhyve_mcp.Common.FilePath
use bhyve_mcp.Host.{calls_after, Host, History, good, bad, run}
use bhyve_mcp.Disk.{Disks, clone_zvol, snapshot, dataset, new_dataset}

module _ (h : Host) (m : Disks) (source dest : String) (past : History) where
  abbrev pub take_snapshot : List String
  take_snapshot = "zfs" ∷ "snapshot" ∷ snapshot m source ∷ []

  abbrev pub drop_snapshot : List String
  drop_snapshot = "zfs" ∷ "destroy" ∷ snapshot m source ∷ []

  abbrev pub clone_snapshot : List String
  clone_snapshot = "zfs" ∷ "clone" ∷ snapshot m source ∷ dataset m dest ∷ []

  -- A clone whose snapshot was taken ends, whether the clone succeeds or not, with the command that
  -- destroys the snapshot; one whose snapshot was refused runs nothing else.
  pub clone_zvol-snapshot :
      calls_after (clone_zvol h m source dest past)
      ≡ some (elim (h.run past take_snapshot) [
        | good _ ↦ run drop_snapshot ∷ run clone_snapshot ∷ run take_snapshot ∷ past
        | bad _ ↦ run take_snapshot ∷ past
      ])
  unfolding clone_zvol
  clone_zvol-snapshot = ground arith

-- A name with no slash: it is its own only element.
abbrev pub IsPlain : String → Type 0
IsPlain name = (FilePath.elements name ≡ name ∷ []) × (FilePath.is_rooted name ≡ false)

dir_of_plain : (name : String) → IsPlain name → FilePath.dir name ≡ "."
unfolding FilePath.dir
dir_of_plain name (e, r) = rw (e, r, FilePath.dir)

base_of_plain : (name : String) → IsPlain name → name ≢ "" → FilePath.base name ≡ name
unfolding FilePath.base
base_of_plain name (e, r) n = ground (arith, e, eq_iff name "")

-- `createZvol` does not create the dataset that `deleteZvol`, `resizeZvol` and `cloneZvol` name: for a
-- name that is not empty and has no slash it writes one element more, a dot.
pub new_dataset-ne-dataset :
    (m : Disks) (name : String) → IsPlain name → name ≢ "" → new_dataset m name ≢ dataset m name
new_dataset-ne-dataset m name plain n e =
    let lengths = ap count (
      subst₂ (λ d b. m.zpool <> "/vm/" <> d <> "/" <> b ≡ dataset m name) (dir_of_plain name plain)
        (base_of_plain name plain n) e) in
    absurd (omega (arith, lengths, length-append))
