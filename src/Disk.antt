-- ===== src/Disk.antt =====
-- internal/disk/manager.go: disk images as files and as ZFS volumes. The manager keeps no state of
-- its own; what it does is the commands that it runs and the files that it removes.
pub mod Volumes
pub mod Raw
pub mod Listing
use bhyve_mcp.Common.{
  ℕ, String, ◌<>◌, ◌=ₛ◌, Bool, List, [], ◌∷◌, Option, none, some, Exec, pure, throw, context,
  ignore, catch, attempt, Result, ok, err, ◌>>=◌, ◌>>◌, if◌then◌else◌, codes, show_ℕ,
}
use bhyve_mcp.Common.FilePath
use bhyve_mcp.Host.{Host, History, need, run, remove, stat}
use bhyve_mcp.Size.{Parsed, number, refused, NumError, invalid_syntax, out_of_range, parse_size_u64}
use bhyve_mcp.Common.Words.{trim_space}

-- The cases of a `switch` over the type `DiskType`, which is a string.
pub data DiskKind : Type 0 where
  raw qcow2 zvol unsupported : DiskKind

unfoldable pub disk_kind : String → DiskKind
disk_kind t =
    if t =ₛ "raw"
    then raw
    else if t =ₛ "qcow2"
    then qcow2
    else if t =ₛ "zvol"
    then zvol
    else unsupported

-- The fields `VM` and `ReadOnly`, which nothing sets or reads, are left out.
pub record DiskInfo : Type 0 where
  pub name : String
  pub disk_type : String
  pub path : String
  pub size : ℕ

-- The struct `Manager`.
pub record Disks : Type 0 where
  pub disk_dir : String
  pub zpool : String

-- The last words of a `*strconv.NumError`; the model leaves out the function and the input before
-- them.
unfoldable pub num_error : NumError → String
num_error invalid_syntax = "invalid syntax"
num_error out_of_range = "value out of range"

-- `parseSize`
unfoldable pub parse_size : String → Exec History ℕ
unfolding num_error parse_size_u64
parse_size size past = elim (parse_size_u64 (codes size)) [
  | number n ↦ pure n past
  | refused e ↦ throw (num_error e) past
]

abbrev pub unsupported_type : {A : Type 0} → String → Exec History A
unsupported_type t = throw ("unsupported disk type: " <> t)

module _ (m : Disks) where
  abbrev pub raw_path : String → String
  raw_path name = FilePath.join m.disk_dir (name <> ".raw")

  abbrev pub qcow2_path : String → String
  qcow2_path name = FilePath.join m.disk_dir (name <> ".qcow2")

  -- The dataset of a volume, as all methods but `createZvol` write it.
  abbrev pub dataset : String → String
  dataset name = m.zpool <> "/vm/" <> name

  -- The dataset that `createZvol` writes.
  abbrev pub new_dataset : String → String
  new_dataset name = m.zpool <> "/vm/" <> FilePath.dir name <> "/" <> FilePath.base name

  abbrev pub snapshot : String → String
  snapshot source = dataset source <> "@clone-snap"

-- `exec.Command(...).Output()`; `Run` is the same call with its output dropped.
abbrev pub command : Host → List String → Exec History String
command h words = need (λ past. h.run past words) (run words)

module _ (h : Host) (m : Disks) where
  create_raw : String → String → Exec History (Unit {0})
  unfolding parse_size
  create_raw name size = do
    bytes ← context "invalid size" (parse_size size)
    context "failed to create raw disk"
        (command h ("truncate" ∷ "-s" ∷ show_ℕ bytes ∷ raw_path m name ∷ []))
    pure tt

  create_qcow2 : String → String → Exec History (Unit {0})
  create_qcow2 name size = do
    context "failed to create QCOW2 disk"
        (command h ("qemu-img" ∷ "create" ∷ "-f" ∷ "qcow2" ∷ qcow2_path m name ∷ size ∷ []))
    pure tt

  create_zvol : String → String → Exec History (Unit {0})
  create_zvol name size = do
    context "failed to create zvol"
        (command h ("zfs" ∷ "create" ∷ "-V" ∷ size ∷ new_dataset m name ∷ []))
    pure tt

  create_kind : DiskKind → String → String → String → Exec History (Unit {0})
  unfolding create_raw create_qcow2 create_zvol
  create_kind raw name size t = create_raw name size
  create_kind qcow2 name size t = create_qcow2 name size
  create_kind zvol name size t = create_zvol name size
  create_kind unsupported name size t = unsupported_type t

  -- The method `Create`.
  unfoldable pub create : String → String → String → Exec History (Unit {0})
  unfolding disk_kind create_kind
  create name size t = create_kind (disk_kind t) name size t

  delete_file : String → Exec History (Unit {0})
  delete_file path =
      context "failed to delete disk" (need (λ past. h.remove past path) (remove path))

  delete_zvol : String → Exec History (Unit {0})
  delete_zvol name = do
    context "failed to destroy zvol" (command h ("zfs" ∷ "destroy" ∷ dataset m name ∷ []))
    pure tt

  delete_kind : DiskKind → String → String → Exec History (Unit {0})
  unfolding delete_file delete_zvol
  delete_kind raw name t = delete_file (raw_path m name)
  delete_kind qcow2 name t = delete_file (qcow2_path m name)
  delete_kind zvol name t = delete_zvol name
  delete_kind unsupported name t = unsupported_type t

  -- The method `Delete`.
  unfoldable pub delete : String → String → Exec History (Unit {0})
  unfolding disk_kind delete_kind
  delete name t = delete_kind (disk_kind t) name t

  resize_raw : String → String → Exec History (Unit {0})
  unfolding parse_size
  resize_raw name size = do
    bytes ← context "invalid size" (parse_size size)
    context "failed to resize raw disk"
        (command h ("truncate" ∷ "-s" ∷ show_ℕ bytes ∷ raw_path m name ∷ []))
    pure tt

  resize_qcow2 : String → String → Exec History (Unit {0})
  resize_qcow2 name size = do
    context "failed to resize QCOW2 disk"
        (command h ("qemu-img" ∷ "resize" ∷ qcow2_path m name ∷ size ∷ []))
    pure tt

  resize_zvol : String → String → Exec History (Unit {0})
  resize_zvol name size = do
    context "failed to resize zvol"
        (command h ("zfs" ∷ "set" ∷ ("volsize=" <> size) ∷ dataset m name ∷ []))
    pure tt

  resize_kind : DiskKind → String → String → String → Exec History (Unit {0})
  unfolding resize_raw resize_qcow2 resize_zvol
  resize_kind raw name size t = resize_raw name size
  resize_kind qcow2 name size t = resize_qcow2 name size
  resize_kind zvol name size t = resize_zvol name size
  resize_kind unsupported name size t = unsupported_type t

  -- The method `Resize`.
  unfoldable pub resize : String → String → String → Exec History (Unit {0})
  unfolding disk_kind resize_kind
  resize name size t = resize_kind (disk_kind t) name size t

  clone_raw : String → String → Exec History (Unit {0})
  clone_raw source dest = do
    context "failed to clone raw disk" (command h ("cp" ∷ raw_path m source ∷ raw_path m dest ∷ []))
    pure tt

  clone_qcow2 : String → String → Exec History (Unit {0})
  clone_qcow2 source dest = do
    context "failed to clone QCOW2 disk" (
        command h (
          "qemu-img"
          ∷ "create"
          ∷ "-f"
          ∷ "qcow2"
          ∷ "-b"
          ∷ qcow2_path m source
          ∷ qcow2_path m dest
          ∷ []))
    pure tt

  abbrev pub destroy_snapshot : String → Exec History (Unit {0})
  destroy_snapshot source = ignore (command h ("zfs" ∷ "destroy" ∷ snapshot m source ∷ []))

  unfoldable pub clone_zvol : String → String → Exec History (Unit {0})
  clone_zvol source dest = do
    context "failed to create snapshot" (command h ("zfs" ∷ "snapshot" ∷ snapshot m source ∷ []))
    catch (command h ("zfs" ∷ "clone" ∷ snapshot m source ∷ dataset m dest ∷ []))
        (λ e. do destroy_snapshot source; throw ("failed to clone zvol: " <> e))
    destroy_snapshot source

  clone_kind : DiskKind → String → String → String → Exec History (Unit {0})
  unfolding clone_raw clone_qcow2 clone_zvol
  clone_kind raw source dest t = clone_raw source dest
  clone_kind qcow2 source dest t = clone_qcow2 source dest
  clone_kind zvol source dest t = clone_zvol source dest
  clone_kind unsupported source dest t = unsupported_type t

  -- The method `Clone`.
  unfoldable pub clone : String → String → String → Exec History (Unit {0})
  unfolding disk_kind clone_kind
  clone source dest t = clone_kind (disk_kind t) source dest t
