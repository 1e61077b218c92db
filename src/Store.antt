-- ===== src/Store.antt =====
-- The state store (internal/store/store.go): a map that is kept as one JSON file. Every method takes
-- a mutex that no other method called from it takes, so the mutexes are left out.
pub mod Records
pub mod Saving
pub mod Reopening
pub mod Failing
use bhyve_mcp.Common.{
  String, ◌<>◌, Option, none, some, [], Exec, Result, ok, err, done, fail, deadlock, pure, throw,
  panic, gets, put, context, lift_result, ◌>>=◌, ◌>>◌, if◌then◌else◌,
}
use bhyve_mcp.Common.Dict
use bhyve_mcp.Common.Dict.{Dict}
use bhyve_mcp.Common.FilePath
use bhyve_mcp.Host.{
  Host, Reply, good, bad, History, need, ask, read_file, mkdir_all, write_file, rename,
}

-- A Go map. A nil one has no keys, and takes none: to write to it is a panic.
abbrev pub GoMap : Type 0 → Type 0
GoMap V = Option (Dict V)

abbrev pub entries : {V : Type 0} → GoMap V → Dict V
entries none = []
entries (some d) = d

-- `m[key] = value`
abbrev pub assign : {V S : Type 0} → String → V → GoMap V → Exec S (GoMap V)
assign key v none = panic
assign key v (some d) = pure (some (Dict.insert key v d))

-- `delete(m, key)`, which a nil map allows.
abbrev pub without : {V : Type 0} → String → GoMap V → GoMap V
without key none = none
without key (some d) = some (Dict.erase key d)

-- encoding/json on a map from keys to values of any type, `V` here. The document `null` is read as the
-- nil map.
pub record Json (V : Type 0) : Type 0 where
  pub marshal_indent : GoMap V → Result String
  pub unmarshal : String → Result (GoMap V)
  -- The type assertion `val.(string)`.
  pub as_string : V → Option String

pub record Store (V : Type 0) : Type 0 where
  pub path : String
  pub values : GoMap V

-- What a method of the store sees and changes.
pub record StoreWorld (V : Type 0) : Type 0 where
  pub store : Store V
  pub history : History

module _ {V : Type 0} where
  -- A call of the operating system.
  abbrev pub on_host : {A : Type 0} → Exec History A → Exec (StoreWorld V) A
  on_host m w = elim (m w.history) [
    | done a past ↦ done a (record w { history = past })
    | fail e past ↦ fail e (record w { history = past })
    | deadlock ↦ deadlock
  ]

  abbrev pub set_values : GoMap V → StoreWorld V → StoreWorld V
  set_values d w = record w { store = record (w.store) { values = d } }

  unfoldable pub get : String → Store V → Option V
  get key s = Dict.lookup key (entries s.values)

  -- The method `GetAll`: a copy of the map.
  unfoldable pub get_all : Store V → Dict V
  get_all s = entries s.values

module _ (h : Host) {V : Type 0} (j : Json V) where
  -- The method `GetString`; none is the second result `false`.
  unfoldable pub get_string : String → Store V → Option String
  get_string key s = elim (Dict.lookup key (entries s.values)) [
    | none ↦ none
    | some v ↦ j.as_string v
  ]

  -- `load`, with the test of its error in `NewStore`: a file that is not there is no error.
  loaded : String → Reply String → Exec History (Store V)
  loaded path (bad f) =
      if f.not_exist
      then pure (record { path = path; values = some [] })
      else throw ("failed to load state: " <> f.message)
  loaded path (good text) = do
    values ← context "failed to load state" (lift_result (j.unmarshal text))
    pure (record { path = path; values = values })

  unfoldable pub new_store : String → Exec History (Store V)
  unfolding loaded
  new_store dir = do
    context "failed to create state directory" (need (λ past. h.mkdir_all past dir) (mkdir_all dir))
    reply ←
        ask (λ past. h.read_file past (FilePath.join dir "state.json"))
          (read_file (FilePath.join dir "state.json"))
    loaded (FilePath.join dir "state.json") reply

  -- The whole map is written beside the state file, and then takes its place.
  unfoldable pub save : Exec (StoreWorld V) (Unit {0})
  save = do
    s ← gets (λ w. w.store)
    text ← context "failed to marshal state" (lift_result (j.marshal_indent s.values))
    context "failed to write state" (
        on_host (
          need (λ past. h.write_file past (s.path <> ".tmp") text)
            (write_file (s.path <> ".tmp") text)))
    context "failed to rename state file" (
        on_host (
          need (λ past. h.rename past (s.path <> ".tmp") s.path)
            (rename (s.path <> ".tmp") s.path)))

  unfoldable pub set : String → V → Exec (StoreWorld V) (Unit {0})
  unfolding save
  set key value = do
    values ← gets (λ w. w.store.values)
    changed ← assign key value values
    put (set_values changed)
    save

  unfoldable pub delete : String → Exec (StoreWorld V) (Unit {0})
  unfolding save
  delete key = do values ← gets (λ w. w.store.values); put (set_values (without key values)); save
