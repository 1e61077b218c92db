-- ===== src/Store/Failing.antt =====
-- A save that fails: the state file of before stays.
use bhyve_mcp.Common.{
  refl, sym, some, none, String, ◌<>◌, ◌≡◌, ◌≢◌, ap, ◌∙◌, fail, arith, ◌∷◌, inl, inr, Result-cases,
}
use text.Mathlib.TextLemmas.{length-append}
use Prim.Native.String.{count}
use bhyve_mcp.Common.Dict
use bhyve_mcp.Host.{Host, History, Fault, Reply-cases, bad, write_file, rename}
use bhyve_mcp.Store.{Json, GoMap, StoreWorld, set, save, set_values}
use bhyve_mcp.Store.Saving.{set-nil}
use bhyve_mcp.Common.Dict.{Dict}

-- A file is left alone by a write of another file, and by a rename that is refused.
pub record LeavesFiles (h : Host) : Type 0 where
  pub written :
      (past : History) (p q text : String)
      → p ≢ q
      → h.read_file (write_file q text ∷ past) p ≡ h.read_file past p
  pub refused :
      (past : History) (p q r : String) (f : Fault)
      → h.rename past p q ≡ bad f
      → h.read_file (rename p q ∷ past) r ≡ h.read_file past r

tmp-ne : (p : String) → p ≢ (p <> ".tmp")
tmp-ne p e = omega (arith, ap count e ∙ length-append p ".tmp")

pub set-save :
    (h : Host) {V : Type 0} (j : Json V) (d : Dict V) (key : String) (v : V) (w : StoreWorld V)
    → w.store.values ≡ some d
    → set h j key v w ≡ save h j (set_values (some (Dict.insert key v d)) w)
unfolding set
set-save h j d key v w e = rw e refl

module _ (h : Host) {V : Type 0} (j : Json V) (leaves : LeavesFiles h) where
  save-failed :
      (w u : StoreWorld V) (e : String)
      → save h j w ≡ fail e u
      → h.read_file u.history w.store.path ≡ h.read_file w.history w.store.path
  unfolding save
  save-failed w u e f =
      let p = w.store.path in
      let n = tmp-ne p in
      elim (Result-cases (j.marshal_indent w.store.values)) [
        | inr (x, g) ↦ ground arith
        | inl (text, g) ↦
            let k = leaves.written w.history p (p <> ".tmp") text n in
            elim (Reply-cases (h.write_file w.history (p <> ".tmp") text)) [
              | inr (x, a) ↦ ground arith
              | inl (tt, a) ↦
                  elim (Reply-cases
                    (h.rename (write_file (p <> ".tmp") text ∷ w.history) (p <> ".tmp") p)) [
                      | inl (tt, b) ↦ ground arith
                      | inr (x, b) ↦ ground (
                        arith,
                        leaves.refused (write_file (p <> ".tmp") text ∷ w.history) (p <> ".tmp") p p
                            x b,
                      )
                    ]
            ]
      ]

  set_entries-failed :
      (m : GoMap V) (key : String) (v : V) (w u : StoreWorld V) (e : String)
      → w.store.values ≡ m
      → set h j key v w ≡ fail e u
      → h.read_file u.history w.store.path ≡ h.read_file w.history w.store.path
  set_entries-failed none key v w u e g f = ground (arith, set-nil h j key v w g)
  set_entries-failed (some d) key v w u e g f =
      save-failed (set_values (some (Dict.insert key v d)) w) u e
        (sym (set-save h j d key v w g) ∙ f)

  -- On a system whose writes and refused renames leave other files alone: a `Set` that reports an
  -- error leaves the state file with what it held before.
  pub set-failed :
      (key : String) (v : V) (w u : StoreWorld V) (e : String)
      → set h j key v w ≡ fail e u
      → h.read_file u.history w.store.path ≡ h.read_file w.history w.store.path
  set-failed key v w u e f = set_entries-failed w.store.values key v w u e refl f
