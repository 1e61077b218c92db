-- ===== src/Store/Records/Sharing.antt =====
-- The record stores over one state store.
use bhyve_mcp.Common.{
  is_some, comes_back, ap, true, String, ◌≡◌, ◌≢◌, refl, some, none, Option, ok, arith, eq_iff,
  Outcome, done, fail, deadlock,
}
use bhyve_mcp.Common.Dict
use bhyve_mcp.Common.Dict.{Dict}
use bhyve_mcp.Host.{Host}
use bhyve_mcp.Store
use bhyve_mcp.Store.{GoMap, entries, without, Json, Store, StoreWorld, set_values}
use bhyve_mcp.Store.Saving.{set-calls, saved_calls, text_of}
use bhyve_mcp.Store.Records.{Codec, RecordWorld, add, delete, save, load, set_records}

-- The records have a text, which is read as records that agree with them under every name.
abbrev pub ReadsRecords : {V R : Type 0} → Codec V R → GoMap R → Type 0
ReadsRecords {V} {R} c d =
    (text : String) × (e : GoMap R) × (c.marshal (c.of_records d) ≡ ok text)
    × (c.unmarshal text ≡ ok e)
    × ((name : String) → Dict.lookup name (entries e) ≡ Dict.lookup name (entries d))

abbrev pub world_after : {V R A : Type 0} → Outcome (RecordWorld V R) A → Option (RecordWorld V R)
world_after (done _ w) = some w
world_after (fail _ w) = some w
world_after deadlock = none

-- The store after a save: it has the records of the record store, and every other value as before.
pub record Holds {V R : Type 0} (c : Codec V R) (own : GoMap R) (w u : RecordWorld V R)
    : Type 0 where
  pub records : u.own.records ≡ own
  pub loads :
      (name : String)
      → Dict.lookup name (entries (load c w.own.db_path u.under.store))
        ≡ Dict.lookup name (entries own)
  pub others :
      (key : String)
      → key ≢ w.own.db_path
      → Store.get key u.under.store ≡ Store.get key w.under.store

module _ {V R : Type 0} (c : Codec V R) (h : Host) (j : Json V) where
  save-Holds :
      (w : RecordWorld V R) (s : Dict V)
      → w.under.store.values ≡ some s
      → ReadsRecords c w.own.records
      → (u : RecordWorld V R) × (world_after (save c h j w) ≡ some u) × Holds c w.own.records w u
  unfolding save load Store.get
  save-Holds w s full (text, e, f, g, q) =
      let v = c.of_records w.own.records in
      let sets = (set-calls h j w.own.db_path v s w.under full).0 in
      (
        record w {
          under = record (set_values (some (Dict.insert w.own.db_path v s)) w.under) {
            history =
                saved_calls h j w.under
                  (text_of (j.marshal_indent (some (Dict.insert w.own.db_path v s))));
          };
        },
        ground (arith, sets),
        record {
          records = refl;
          loads = λ name. ground (arith, Dict.lookup-insert_self w.own.db_path v s, f, g, q name);
          others = λ key n.
              ground
                (arith, full, Dict.lookup-insert key w.own.db_path v s, eq_iff w.own.db_path key);
        },
      )

  -- For records whose text reads back, and maps that are not nil: `Add` comes back, and whether or not
  -- the state file is written, the record stands under its name, a record store that is opened on the
  -- same state store has the same records, and every other value of the state store, such as the other
  -- record store's, is as before.
  pub add-Holds :
      (name : String) (r : R) (d : Dict R) (s : Dict V) (w : RecordWorld V R)
      → w.own.records ≡ some d
      → w.under.store.values ≡ some s
      → ReadsRecords c (some (Dict.insert name r d))
      → (u : RecordWorld V R) × (world_after (add c h j name r w) ≡ some u)
        × Holds c (some (Dict.insert name r d)) w u
  unfolding add
  add-Holds name r d s w own full reads =
      let (u, e, p) = save-Holds (set_records (some (Dict.insert name r d)) w) s full reads in
      (u, rw own e, record { records = p.records; loads = p.loads; others = p.others })

  -- For records whose text reads back, and a state store whose map is not nil: `Delete` comes back, and
  -- whether or not the state file is written, the record is taken out, a record store that is opened
  -- on the same state store has the same records, and every other value of the state store is as
  -- before.
  pub delete-Holds :
      (name : String) (s : Dict V) (w : RecordWorld V R)
      → w.under.store.values ≡ some s
      → ReadsRecords c (without name w.own.records)
      → (u : RecordWorld V R) × (world_after (delete c h j name w) ≡ some u)
        × Holds c (without name w.own.records) w u
  unfolding delete
  delete-Holds name s w full reads =
      let (u, e, p) = save-Holds (set_records (without name w.own.records) w) s full reads in
      (u, e, record { records = p.records; loads = p.loads; others = p.others })

  -- A save changes no records, and leaves the state store a map that is not nil.
  save-after :
      (w : RecordWorld V R) (s : Dict V)
      → w.under.store.values ≡ some s
      → (u : RecordWorld V R) × (world_after (save c h j w) ≡ some u)
        × (u.own ≡ w.own)
        × (is_some u.under.store.values ≡ true)
  unfolding save
  save-after w s full =
      let v = c.of_records w.own.records in
      (
        record w {
          under = record (set_values (some (Dict.insert w.own.db_path v s)) w.under) {
            history =
                saved_calls h j w.under
                  (text_of (j.marshal_indent (some (Dict.insert w.own.db_path v s))));
          };
        },
        ground (arith, (set-calls h j w.own.db_path v s w.under full).0),
        refl,
        refl,
      )

  -- `Delete` on a state store whose map is not nil comes back, has taken the record out, and leaves
  -- such a map.
  pub delete-after :
      (name : String) (s : Dict V) (w : RecordWorld V R)
      → w.under.store.values ≡ some s
      → (u : RecordWorld V R) × (world_after (delete c h j name w) ≡ some u)
        × (u.own.records ≡ without name w.own.records)
        × (is_some u.under.store.values ≡ true)
  unfolding delete
  delete-after name s w full =
      let (u, e, p, q) = save-after (set_records (without name w.own.records) w) s full in
      (u, e, ap (λ o. o.records) p, q)

  world_after-comes_back :
      {A : Type 0} (o : Outcome (RecordWorld V R) A) (u : RecordWorld V R)
      → world_after o ≡ some u
      → comes_back o ≡ true
  world_after-comes_back (done a w) u e = refl
  world_after-comes_back (fail x w) u e = refl
  world_after-comes_back deadlock u e = cc

  pub delete-comes_back :
      (name : String) (s : Dict V) (w : RecordWorld V R)
      → w.under.store.values ≡ some s
      → comes_back (delete c h j name w) ≡ true
  delete-comes_back name s w full =
      let (u, e, p, q) = delete-after name s w full in
      world_after-comes_back (delete c h j name w) u e
