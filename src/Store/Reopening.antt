-- ===== src/Store/Reopening.antt =====
-- A store that is saved, and read back by a later `NewStore`.
use bhyve_mcp.Common.{
  sym, ap, String, ◌<>◌, ◌=ₛ◌, ◌≡◌, ◌∙◌, some, ok, arith, ◌∷◌, done, if◌then◌else◌, Result-cases,
  inl, inr,
}
use bhyve_mcp.Common.Dict
use bhyve_mcp.Common.Dict.{Dict}
use bhyve_mcp.Common.FilePath
use bhyve_mcp.Host.{Host, History, Reply-cases, good, write_file, rename, mkdir_all, read_file}
use bhyve_mcp.Store.Failing.{set-save}
use bhyve_mcp.Store.{
  GoMap, entries, Json, Store, StoreWorld, set, save, set_values, new_store, loaded, get,
}

-- What a file holds that was written and renamed, and that making a directory leaves it alone.
pub record KeepsFiles (h : Host) : Type 0 where
  pub renamed :
      (past : History) (p q text : String)
      → h.write_file past p text ≡ good tt
      → h.rename (write_file p text ∷ past) p q ≡ good tt
      → h.read_file (rename p q ∷ write_file p text ∷ past) q ≡ good text
  pub made :
      (past : History) (dir p text : String)
      → h.read_file past p ≡ good text
      → h.read_file (mkdir_all dir ∷ past) p ≡ good text

-- The text of this map is read as a map with the same entries.
abbrev pub ReadsBack : {V : Type 0} → Json V → Dict V → Type 0
ReadsBack {V} j d =
    (text : String)
    → j.marshal_indent (some d) ≡ ok text
    → (e : Dict V) × (j.unmarshal text ≡ ok (some e))
      × ((key : String) → Dict.lookup key e ≡ Dict.lookup key d)

module _ (h : Host) {V : Type 0} (j : Json V) where
  -- A save that has succeeded has written a text of the map, and renamed it over the state file.
  save-success :
      (w u : StoreWorld V)
      → save h j w ≡ done tt u
      → (text : String) × (j.marshal_indent w.store.values ≡ ok text)
        × (h.write_file w.history (w.store.path <> ".tmp") text ≡ good tt)
        × (h.rename
              (write_file (w.store.path <> ".tmp") text ∷ w.history)
              (w.store.path <> ".tmp")
              w.store.path
            ≡ good tt)
        × (u.history
            ≡ rename (w.store.path <> ".tmp") w.store.path
              ∷ write_file (w.store.path <> ".tmp") text
              ∷ w.history)
  unfolding save
  save-success w u e = elim (Result-cases (j.marshal_indent w.store.values)) [
    | inr (x, f) ↦ ground arith
    | inl (text, f) ↦ elim (Reply-cases (h.write_file w.history (w.store.path <> ".tmp") text)) [
      | inr (x, g) ↦ ground arith
      | inl (tt, g) ↦
          elim (Reply-cases (
            h.rename (write_file (w.store.path <> ".tmp") text ∷ w.history) (w.store.path <> ".tmp")
              w.store.path)) [
                | inr (x, k) ↦ ground arith
                | inl (tt, k) ↦ (text, f, g, k, ground arith)
              ]
    ]
  ]

  new_store-read :
      (dir text : String) (m : GoMap V) (past : History)
      → h.mkdir_all past dir ≡ good tt
      → h.read_file (mkdir_all dir ∷ past) (FilePath.join dir "state.json") ≡ good text
      → j.unmarshal text ≡ ok m
      → new_store h j dir past
        ≡ done
            (record { path = FilePath.join dir "state.json"; values = m })
            (read_file (FilePath.join dir "state.json") ∷ mkdir_all dir ∷ past)
  unfolding new_store loaded
  new_store-read dir text m past a r e = ground arith

  -- On files that keep what is written, for a map that is not nil and whose text reads back: after a `Set` that
  -- succeeded, `NewStore` on the same directory, if it can be made, gives a store with the value
  -- under the key, and with the value of before under every other key.
  pub set-new_store :
      (dir key : String) (v : V) (d : Dict V) (w u : StoreWorld V)
      → KeepsFiles h
      → w.store.values ≡ some d
      → ReadsBack j (Dict.insert key v d)
      → w.store.path ≡ FilePath.join dir "state.json"
      → set h j key v w ≡ done tt u
      → h.mkdir_all u.history dir ≡ good tt
      → (s : Store V) × (past : History) × (new_store h j dir u.history ≡ done s past)
        × ((k : String) → get k s ≡ (if key =ₛ k then some v else get k w.store))
  unfolding get
  set-new_store dir key v d w u keeps full back at e m =
      let (text, f, g, r, c) =
        save-success (set_values (some (Dict.insert key v d)) w) u
          (sym (set-save h j d key v w full) ∙ e) in
      let (m', p, q) = back text f in
      let read = keeps.renamed w.history (w.store.path <> ".tmp") w.store.path text g r in
      (
        _,
        _,
        new_store-read dir text (some m') u.history m
            (keeps.made u.history dir (FilePath.join dir "state.json") text cc) p,
        λ k.
            q k
            ∙ Dict.lookup-insert k key v d
            ∙ ap (λ z. if key =ₛ k then some v else Dict.lookup k (entries z)) (sym full),
      )
