-- ===== src/Store/Saving.antt =====
-- What `Set` and `Delete` write.
use bhyve_mcp.Common.{
  refl, String, ◌<>◌, ◌≡◌, Bool, true, false, ◌&&◌, some, none, Option, ok, err, Result, arith, ◌∷◌,
  Outcome, done, fail, deadlock, if◌then◌else◌,
}
use bhyve_mcp.Common.Dict
use bhyve_mcp.Common.Dict.{Dict}
use bhyve_mcp.Host.{Host, History, Reply, good, bad, write_file, rename}
use bhyve_mcp.Store.{Json, StoreWorld, set, delete, save, set_values, without}

module _ {V : Type 0} where
  abbrev pub world_after : {A : Type 0} → Outcome (StoreWorld V) A → Option (StoreWorld V)
  world_after (done _ w) = some w
  world_after (fail _ w) = some w
  world_after deadlock = none

  abbrev pub succeeded : {A : Type 0} → Outcome (StoreWorld V) A → Bool
  succeeded (done _ _) = true
  succeeded _ = false

abbrev pub accepted : {A : Type 0} → Reply A → Bool
accepted (good _) = true
accepted (bad _) = false

-- The text that a map is written as, if it can be.
abbrev pub text_of : Result String → Option String
text_of (ok t) = some t
text_of (err _) = none

module _ (h : Host) {V : Type 0} (j : Json V) (w : StoreWorld V) where
  abbrev tmp : String
  tmp = w.store.path <> ".tmp"

  -- The calls of one `save`, newest first.
  abbrev pub saved_calls : Option String → History
  saved_calls none = w.history
  saved_calls (some t) =
      if accepted (h.write_file w.history tmp t)
      then rename tmp w.store.path ∷ write_file tmp t ∷ w.history
      else write_file tmp t ∷ w.history

  abbrev pub is_saved : Option String → Bool
  is_saved none = false
  is_saved (some t) =
      accepted (h.write_file w.history tmp t)
      && accepted (h.rename (write_file tmp t ∷ w.history) tmp w.store.path)

  save-calls :
      let o = save h j w in
      let t = text_of (j.marshal_indent w.store.values) in
      (world_after o ≡ some (record w { history = saved_calls t })) × (succeeded o ≡ is_saved t)
  unfolding save
  save-calls = ground arith

-- On a map that is not nil, `Set` always has the value in memory. On disk it writes the new map, if it
-- has a text, beside the state file, renames that over the state file once it is written, and makes
-- no other call; it reports success exactly when both calls are carried out.
pub set-calls :
    (h : Host) {V : Type 0} (j : Json V) (key : String) (v : V) (d : Dict V) (w : StoreWorld V)
    → w.store.values ≡ some d
    → let u = set_values (some (Dict.insert key v d)) w in
      let t = text_of (j.marshal_indent u.store.values) in
      let o = set h j key v w in
      (world_after o ≡ some (record u { history = saved_calls h j w t }))
      × (succeeded o ≡ is_saved h j w t)
unfolding set
set-calls h j key v d w e =
    rw e (ground (arith, save-calls h j (set_values (some (Dict.insert key v d)) w)))

-- On a nil map, `Set` is a panic.
pub set-nil :
    (h : Host) {V : Type 0} (j : Json V) (key : String) (v : V) (w : StoreWorld V)
    → w.store.values ≡ none
    → set h j key v w ≡ deadlock
unfolding set
set-nil h j key v w e = rw e refl

-- `Delete` always takes the key out of the map in memory. On disk it writes the new map, if it has a
-- text, beside the state file, renames that over the state file once it is written, and makes no
-- other call; it reports success exactly when both calls are carried out.
pub delete-calls :
    (h : Host) {V : Type 0} (j : Json V) (key : String) (w : StoreWorld V)
    → let u = set_values (without key w.store.values) w in
      let t = text_of (j.marshal_indent u.store.values) in
      let o = delete h j key w in
      (world_after o ≡ some (record u { history = saved_calls h j w t }))
      × (succeeded o ≡ is_saved h j w t)
unfolding delete
delete-calls h j key w = ground (arith, save-calls h j (set_values (without key w.store.values) w))
