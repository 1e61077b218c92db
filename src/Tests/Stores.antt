-- ===== src/Tests/Stores.antt =====
-- The stores on a concrete file system.
use bhyve_mcp.Common.{
  Option, pos, String, ◌=ₛ◌, ◌≡◌, refl, ap, subst, true, false, some, none, [], ◌∷◌, ok, done,
  if◌then◌else◌, eq_iff, eq_refl, arith,
}
use mathlib.Core.Option.{some-injective}
use bhyve_mcp.Common.Dict
use bhyve_mcp.Common.Dict.{Dict}
use bhyve_mcp.Common.FilePath
use bhyve_mcp.Host.{Host, History, Reply, good, bad, write_file, rename}
use bhyve_mcp.Store
use bhyve_mcp.Store.{GoMap, without, Json, Store, StoreWorld, set, delete, new_store, set_values}
use bhyve_mcp.Store.Saving.{
  world_after, succeeded, saved_calls, is_saved, text_of, set-calls, delete-calls,
}
use bhyve_mcp.Store.Reopening.{KeepsFiles, set-new_store}
use bhyve_mcp.Store.Failing.{LeavesFiles, set-failed}
use bhyve_mcp.Store.Records
use bhyve_mcp.Store.Records.{IsoRecord, Codec, RecordWorld}
use bhyve_mcp.Store.Records.Sharing.{Holds, add-Holds, delete-Holds}
use bhyve_mcp.Tests.Hosts.{willing, denied}

-- What the calls so far have left in a file.
contents : History → String → Reply String
contents [] p = bad (record { message = "no such file"; not_exist = true })
contents (write_file q text ∷ past) p =
    let rest = contents past p in if q =ₛ p then good text else rest
contents (rename q r ∷ past) p =
    let moved = contents past q in let rest = contents past p in if r =ₛ p then moved else rest
contents (_ ∷ past) p = contents past p

filing : Host
filing = record willing { read_file = contents }

filing-KeepsFiles : KeepsFiles filing
unfolding filing contents
filing-KeepsFiles = record {
  renamed = λ past p q text a b. ground (arith, eq_refl p, eq_refl q);
  made = λ past dir p text e. e;
}

-- No file takes another's place.
unmoving : Host
unmoving = record filing { rename = λ past p q. bad denied }

-- A library for maps with no entry, or with this one.
abbrev pub one_value : Json String
one_value = record {
  marshal_indent = λ d. ok (text_for d);
  unmarshal = λ text. ok (some (if text =ₛ "{}" then [] else ("zone", "utc") ∷ []));
  as_string = some;
}
  where
    text_for : GoMap String → String
    text_for none = "null"
    text_for (some []) = "{}"
    text_for (some (_ ∷ _)) = "{zone: utc}"

abbrev pub empty_store : StoreWorld String
empty_store = record {
  store = record { path = "/state/state.json"; values = some [] };
  history = [];
}

set-calls_example :
    let u = set_values (some (Dict.insert "zone" "utc" [])) empty_store in
    let t = text_of (one_value.marshal_indent u.store.values) in
    let o = set unmoving one_value "zone" "utc" empty_store in
    (world_after o ≡ some (record u { history = saved_calls unmoving one_value empty_store t }))
    × (succeeded o ≡ is_saved unmoving one_value empty_store t)
set-calls_example = set-calls unmoving one_value "zone" "utc" [] empty_store refl

delete-calls_example :
    let u = set_values (without "zone" empty_store.store.values) empty_store in
    let t = text_of (one_value.marshal_indent u.store.values) in
    let o = delete filing one_value "zone" empty_store in
    (world_after o ≡ some (record u { history = saved_calls filing one_value empty_store t }))
    × (succeeded o ≡ is_saved filing one_value empty_store t)
delete-calls_example = delete-calls filing one_value "zone" empty_store

abbrev saved_store : StoreWorld String
saved_store = record {
  store = record { path = "/state/state.json"; values = some (("zone", "utc") ∷ []) };
  history =
      rename "/state/state.json.tmp" "/state/state.json"
      ∷ write_file "/state/state.json.tmp" "{zone: utc}"
      ∷ [];
}

set-new_store_example :
    (s : Store String) × (past : History) × (new_store filing one_value "/state" saved_store.history
      ≡ done s past)
    × ((k : String)
        → Store.get k s ≡ (if "zone" =ₛ k then some "utc" else Store.get k empty_store.store))
unfolding filing set Dict.insert FilePath.join ◌=ₛ◌
set-new_store_example =
    set-new_store filing one_value "/state" "zone" "utc" [] empty_store saved_store
      filing-KeepsFiles refl
      (λ text e. (
        ("zone", "utc") ∷ [],
        subst (λ t. one_value.unmarshal t ≡ ok (some (("zone", "utc") ∷ [])))
            (some-injective _ _ (ap text_of e)) refl,
        λ key. refl,
      ))
      refl refl refl

abbrev debian : IsoRecord
debian = record {
  name = "debian";
  url = "";
  sha256 = "";
  size = pos 4096;
  downloaded = "2024-01-01";
  verified = false;
}

abbrev Isos : Type 0
Isos = GoMap (Option IsoRecord)

-- Maps of records as values, with a library for the one that has this record, or none.
abbrev one_record : Codec Isos (Option IsoRecord)
one_record = record {
  of_records = λ d. d;
  marshal = λ d. ok (text_for d);
  unmarshal = λ text. ok (some (if text =ₛ "{}" then [] else ("debian", some debian) ∷ []));
}
  where
    text_for : Isos → String
    text_for none = "null"
    text_for (some []) = "{}"
    text_for (some (_ ∷ _)) = "{debian: {}}"

abbrev records_json : Json Isos
records_json = record {
  marshal_indent = λ d. ok "{}";
  unmarshal = λ text. ok (some []);
  as_string = λ v. none;
}

abbrev isos : Dict (Option IsoRecord) → RecordWorld Isos (Option IsoRecord)
isos d = record {
  own = record { dir = "/isos"; db_path = "isos"; records = some d };
  under = record { store = record { path = "/state/state.json"; values = some [] }; history = [] };
}

add-Holds_example :
    (u : RecordWorld Isos (Option IsoRecord)) × (Records.Sharing.world_after
        (Records.add one_record unmoving records_json "debian" (some debian) (isos []))
      ≡ some u)
    × Holds one_record (some (Dict.insert "debian" (some debian) [])) (isos []) u
unfolding Dict.insert ◌=ₛ◌
add-Holds_example =
    add-Holds one_record unmoving records_json "debian" (some debian) [] [] (isos []) refl refl
      ("{debian: {}}", some (("debian", some debian) ∷ []), refl, refl, λ name. refl)

delete-Holds_example :
    (u : RecordWorld Isos (Option IsoRecord)) × (Records.Sharing.world_after (
        Records.delete one_record filing records_json "debian"
          (isos (("debian", some debian) ∷ [])))
      ≡ some u)
    × Holds one_record
        (without "debian" (some (("debian", some debian) ∷ [])))
        (isos (("debian", some debian) ∷ []))
        u
unfolding Dict.erase ◌=ₛ◌
delete-Holds_example =
    delete-Holds one_record filing records_json "debian" [] (isos (("debian", some debian) ∷ []))
      refl ("{}", some [], refl, refl, λ name. refl)

-- Files that are written, and no file that takes another's place.
written_contents : History → String → Reply String
written_contents [] p = bad (record { message = "no such file"; not_exist = true })
written_contents (write_file q text ∷ past) p =
    let rest = written_contents past p in if q =ₛ p then good text else rest
written_contents (_ ∷ past) p = written_contents past p

stuck : Host
stuck = record willing { read_file = written_contents; rename = λ past p q. bad denied }

stuck-LeavesFiles : LeavesFiles stuck
unfolding stuck written_contents
stuck-LeavesFiles = record {
  written = λ past p q text n. ground (arith, n, eq_iff q p);
  refused = λ past p q r f e. refl;
}

abbrev unsaved_store : StoreWorld String
unsaved_store = record {
  store = record { path = "/state/state.json"; values = some (("zone", "utc") ∷ []) };
  history =
      rename "/state/state.json.tmp" "/state/state.json"
      ∷ write_file "/state/state.json.tmp" "{zone: utc}"
      ∷ [];
}

set-failed_example :
    stuck.read_file unsaved_store.history "/state/state.json"
    ≡ stuck.read_file [] "/state/state.json"
unfolding stuck set Dict.insert
set-failed_example =
    set-failed stuck one_value stuck-LeavesFiles "zone" "utc" empty_store unsaved_store
      "failed to rename state file: permission denied" refl
