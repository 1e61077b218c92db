-- ===== src/Store/Records.antt =====
-- The ISO store and the template store (internal/store/store.go): records that are one value of the
-- state store. The two types of Go have the same methods, over their own type of record. The maps hold
-- pointers to records: here a value of `Option`, which is none for the nil pointer of a JSON null.
pub mod Sharing
use bhyve_mcp.Common.{
  ℤ, String, Bool, true, false, Option, none, some, List, [], Exec, Result, ok, err, Outcome, done,
  fail, deadlock, pure, gets, put, context, ◌>>=◌, ◌>>◌,
}
use bhyve_mcp.Common.Dict
use bhyve_mcp.Common.Dict.{Dict}
use bhyve_mcp.Common.FilePath
use bhyve_mcp.Host.{Host, History, need, mkdir_all}
use bhyve_mcp.Store
use bhyve_mcp.Store.{GoMap, entries, assign, without, Json, Store, StoreWorld}

pub record IsoRecord : Type 0 where
  pub name : String
  pub url : String
  pub sha256 : String
  pub size : ℤ
  pub downloaded : String
  pub verified : Bool

pub record TemplateRecord : Type 0 where
  pub name : String
  pub source_vm : String
  pub created : String
  pub size : ℤ
  pub disk_type : String
  pub disk_path : String

-- How a map of records is a value of the store, and is read from one: the value is written as JSON
-- and read at the type of the map.
pub record Codec (V R : Type 0) : Type 0 where
  pub of_records : GoMap R → V
  pub marshal : V → Result String
  pub unmarshal : String → Result (GoMap R)

-- The structs `ISOStore` and `TemplateStore`, but for the pointer to the store.
pub record RecordStore (R : Type 0) : Type 0 where
  pub dir : String
  pub db_path : String
  pub records : GoMap R

-- What a method sees and changes: its own records, and the store with the history.
pub record RecordWorld (V R : Type 0) : Type 0 where
  pub own : RecordStore R
  pub under : StoreWorld V

abbrev pub on_store : {V R A : Type 0} → Exec (StoreWorld V) A → Exec (RecordWorld V R) A
on_store m w = elim (m w.under) [
  | done a u ↦ done a (record w { under = u })
  | fail e u ↦ fail e (record w { under = u })
  | deadlock ↦ deadlock
]

abbrev set_records : {V R : Type 0} → GoMap R → RecordWorld V R → RecordWorld V R
set_records d w = record w { own = record (w.own) { records = d } }

module _ {V R : Type 0} (c : Codec V R) where
  -- `load`, after which an error leaves the map empty; the document `null` leaves it nil.
  unfoldable pub load : String → Store V → GoMap R
  unfolding Store.get
  load db_path s = elim (Store.get db_path s) [
    | none ↦ some []
    | some v ↦ elim (c.marshal v) [
      | err _ ↦ some []
      | ok text ↦ elim (c.unmarshal text) [ err _ ↦ some [] | ok records ↦ records ]
    ]
  ]

  open_records : Host → String → String → String → Exec (StoreWorld V) (RecordStore R)
  unfolding load
  open_records h text dir db_path = do
    context text (Store.on_host (need (λ past. h.mkdir_all past dir) (mkdir_all dir)))
    s ← gets (λ w. w.store)
    pure (record { dir = dir; db_path = db_path; records = load db_path s })

  module _ (h : Host) (j : Json V) where
    -- The methods `save`.
    save : Exec (RecordWorld V R) (Unit {0})
    unfolding Store.set
    save = do
      own ← gets (λ w. w.own)
      on_store (Store.set h j own.db_path (c.of_records own.records))

    -- What `Add` does with a record that has the name, and the method `Delete`.
    unfoldable pub add : String → R → Exec (RecordWorld V R) (Unit {0})
    unfolding save
    add name r = do
      records ← gets (λ w. w.own.records)
      changed ← assign name r records
      put (set_records changed)
      save

    unfoldable pub delete : String → Exec (RecordWorld V R) (Unit {0})
    unfolding save
    delete name = do
      records ← gets (λ w. w.own.records)
      put (set_records (without name records))
      save

module _ {R : Type 0} where
  -- The methods `Get`, `List`, in the order in which the map is gone through, and `GetPath`.
  unfoldable pub get : String → RecordStore R → Option R
  get name s = Dict.lookup name (entries s.records)

  unfoldable pub list : RecordStore R → List R
  list s = Dict.values (entries s.records)

  unfoldable pub get_path : String → RecordStore R → String
  get_path name s = FilePath.join s.dir name

unfoldable pub new_iso_store :
    {V : Type 0}
    → Codec V (Option IsoRecord)
    → Host
    → String
    → Exec (StoreWorld V) (RecordStore (Option IsoRecord))
unfolding open_records
new_iso_store c h dir = open_records c h "failed to create ISO directory" dir "isos"

unfoldable pub new_template_store :
    {V : Type 0}
    → Codec V (Option TemplateRecord)
    → Host
    → String
    → Exec (StoreWorld V) (RecordStore (Option TemplateRecord))
unfolding open_records
new_template_store c h dir = open_records c h "failed to create template directory" dir "templates"

module _ {V : Type 0} (h : Host) (j : Json V) where
  unfoldable pub add_iso :
      Codec V (Option IsoRecord) → IsoRecord → Exec (RecordWorld V (Option IsoRecord)) (Unit {0})
  unfolding add
  add_iso c r = add c h j r.name (some r)

  unfoldable pub add_template :
      Codec V (Option TemplateRecord)
      → TemplateRecord
      → Exec (RecordWorld V (Option TemplateRecord)) (Unit {0})
  unfolding add
  add_template c r = add c h j r.name (some r)
