-- ===== src/Mcp/StoreHandlers.antt =====
-- The handlers of the requests about ISO files and templates.
use bhyve_mcp.Common.{Option, none, some, List, panic, [], ◌∷◌, map, Exec, pure, gets, ◌>>=◌, ◌>>◌}
use bhyve_mcp.Store.Records
use bhyve_mcp.Store.Records.{IsoRecord, TemplateRecord}
use bhyve_mcp.Mcp.Types.{
  Env, ServerWorld, Entries, Answer, text, number, flag, objects, success, text_entry, on_isos,
  decoded,
}

iso_entries : IsoRecord → Entries
iso_entries r =
    ("name", text r.name)
    ∷ ("url", text r.url)
    ∷ ("size", number r.size)
    ∷ ("downloaded", text r.downloaded)
    ∷ ("verified", flag r.verified)
    ∷ []

template_entries : TemplateRecord → Entries
template_entries t =
    ("name", text t.name)
    ∷ ("source_vm", text t.source_vm)
    ∷ ("created", text t.created)
    ∷ ("size", number t.size)
    ∷ ("disk_type", text t.disk_type)
    ∷ []

-- The records that the pointers lead to; none if one of them is nil.
unfoldable pub all_present : {R : Type 0} → List (Option R) → Option (List R)
all_present [] = some []
all_present (none ∷ rs) = none
all_present (some r ∷ rs) = elim (all_present rs) [ none ↦ none | some all ↦ some (r ∷ all) ]

-- The loop over the pointers follows each of them.
abbrev pub followed : {S R : Type 0} → Option (List R) → Exec S (List R)
followed none = panic
followed (some rs) = pure rs

module _ {V P : Type 0} (e : Env V P) where
  -- It deletes the record, and leaves the file.
  unfoldable pub handle_delete_iso : P → Exec (ServerWorld V) Answer
  handle_delete_iso params = do
    p ← decoded (e.decoder.vm_name params)
    on_isos (Records.delete e.isos e.host e.json p.name)
    pure (success (text_entry "name" p.name ∷ []))

module _ {V : Type 0} where
  unfoldable pub handle_list_isos : Exec (ServerWorld V) Answer
  unfolding iso_entries all_present
  handle_list_isos = do
    pointers ← gets (λ w. all_present (Records.list w.server.iso_store))
    isos ← followed pointers
    pure (success (("isos", objects (map iso_entries isos)) ∷ []))

  unfoldable pub handle_list_templates : Exec (ServerWorld V) Answer
  unfolding template_entries all_present
  handle_list_templates = do
    pointers ← gets (λ w. all_present (Records.list w.server.template_store))
    templates ← followed pointers
    pure (success (("templates", objects (map template_entries templates)) ∷ []))
