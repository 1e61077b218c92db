-- ===== src/Mcp/DiskHandlers.antt =====
-- The handlers of the requests about disks.
use bhyve_mcp.Common.{pos, String, ◌=ₛ◌, [], ◌∷◌, map, Exec, pure, ◌>>=◌, ◌>>◌, if◌then◌else◌}
use bhyve_mcp.Disk
use bhyve_mcp.Disk.{DiskInfo}
use bhyve_mcp.Disk.Listing
use bhyve_mcp.Mcp.Types.{
  Env, ServerWorld, Entries, Answer, text, number, objects, success, text_entry, on_disks, decoded,
}

-- `disk.DiskType(p.Type)`, or raw if that is empty
abbrev pub type_or_raw : String → String
type_or_raw t = if t =ₛ "" then "raw" else t

disk_entries : DiskInfo → Entries
disk_entries d =
    ("name", text d.name)
    ∷ ("type", text d.disk_type)
    ∷ ("path", text d.path)
    ∷ ("size", number (pos d.size))
    ∷ []

module _ {V P : Type 0} (e : Env V P) where
  unfoldable pub handle_create_disk : P → Exec (ServerWorld V) Answer
  handle_create_disk params = do
    p ← decoded (e.decoder.create_disk params)
    on_disks (λ m. Disk.create e.host m p.name p.size (type_or_raw p.disk_type))
    pure (
        success (
          text_entry "name" p.name
          ∷ text_entry "type" (type_or_raw p.disk_type)
          ∷ text_entry "size" p.size
          ∷ []))

  -- It reads the parameters of a creation.
  unfoldable pub handle_delete_disk : P → Exec (ServerWorld V) Answer
  handle_delete_disk params = do
    p ← decoded (e.decoder.create_disk params)
    on_disks (λ m. Disk.delete e.host m p.name (type_or_raw p.disk_type))
    pure (success (text_entry "name" p.name ∷ []))

  unfoldable pub handle_resize_disk : P → Exec (ServerWorld V) Answer
  handle_resize_disk params = do
    p ← decoded (e.decoder.resize_disk params)
    on_disks (λ m. Disk.resize e.host m p.name p.size (type_or_raw p.disk_type))
    pure (success (text_entry "name" p.name ∷ text_entry "size" p.size ∷ []))

  unfoldable pub handle_clone_disk : P → Exec (ServerWorld V) Answer
  handle_clone_disk params = do
    p ← decoded (e.decoder.clone_disk params)
    on_disks (λ m. Disk.clone e.host m p.source p.dest (type_or_raw p.disk_type))
    pure (success (text_entry "source" p.source ∷ text_entry "dest" p.dest ∷ []))

  unfoldable pub handle_list_disks : Exec (ServerWorld V) Answer
  unfolding disk_entries
  handle_list_disks = do
    disks ← on_disks (λ m. Listing.list e.host m)
    pure (success (("disks", objects (map disk_entries disks)) ∷ []))
