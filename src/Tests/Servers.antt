-- ===== src/Tests/Servers.antt =====
-- The server on a system that does everything, with texts for raw parameters.
use bhyve_mcp.Common.{
  done, Outcome, Option, subst, ap, true, false, pos, String, ◌<>◌, ◌=ₛ◌, ◌≡◌, refl, ℕ, none, some,
  List, [], ◌∷◌, map, ok, err, ◌⊎◌, fail, deadlock, if◌then◌else◌,
}
use bhyve_mcp.Common.Dict
use mathlib.Core.Option.{some-injective}
use bhyve_mcp.Host.{History, Reply, good}
use bhyve_mcp.Config.{default_config}
use bhyve_mcp.Vm.Types.{new_manager}
use bhyve_mcp.Mcp.Types.{Env, Decoder, Server, ServerWorld}
use bhyve_mcp.Mcp.Dispatch.{Method, method_of, handle, handle_request}
use bhyve_mcp.Mcp.Refusing.{handle_request-refusal}
use bhyve_mcp.Store.Records
use bhyve_mcp.Mcp.Present.{IsWhole}
use bhyve_mcp.Mcp.StoreHandlers.{all_present, handle_list_isos}
use bhyve_mcp.Store.{new_store}
use bhyve_mcp.Store.Records.{load, new_iso_store, new_template_store}
use bhyve_mcp.Vm.Loading.{load_all_vms, load_entries}
use bhyve_mcp.Mcp.Keeping.{Leaves, Keeps, handle-Keeps}
use bhyve_mcp.Mcp.Running.{Request, Response, request, Session, ended, initialize, serve, run}
use bhyve_mcp.Mcp.Running.Serving.{Answers, run-Answers, serve-Hangs}
use bhyve_mcp.Tests.Hosts.{willing, yaml}
use bhyve_mcp.Tests.Machines.{running_web, with_web, running_web-WellFormed}
use bhyve_mcp.Tests.Stores.{one_value}

-- The parameters are a name, which must not be empty.
abbrev decoder : Decoder String
decoder = record {
  create_vm = λ p. ok (record { name = p; cpu = pos 2; memory = "1G" });
  vm_name = λ p. if p =ₛ "" then err "unexpected end of JSON input" else ok (record { name = p });
  create_disk = λ p. ok (record { name = p; size = "1G"; disk_type = "" });
  resize_disk = λ p. ok (record { name = p; size = "2G"; disk_type = "" });
  clone_disk = λ p. ok (record { source = p; dest = p <> "-copy"; disk_type = "zvol" });
  create_switch = λ p. ok (record { name = p; physical_interface = "em0" });
}

abbrev pub env : Env String String
env = record {
  host = willing;
  yaml = yaml;
  json = one_value;
  isos = record { of_records = λ d. "isos"; marshal = λ v. ok v; unmarshal = λ t. ok (some []) };
  templates = record {
    of_records = λ d. "templates";
    marshal = λ v. ok v;
    unmarshal = λ t. ok (some []);
  };
  decoder = decoder;
}

abbrev accepting : List (Response ℕ) → Response ℕ → Reply (Unit {0})
accepting sent r = good tt

abbrev call : ℕ → String → String → Request ℕ String
call id method params = record { id = id; method = method; params = params }

abbrev requests : List (Request ℕ String)
requests =
    call 1 "vm/create" "web"
    ∷ call 2 "vm/start" ""
    ∷ call 3 "host/info" ""
    ∷ call 4 "vm/pause" "web"
    ∷ []

abbrev value_of : {S A : Type 0} → Outcome S A → Option A
value_of (done a s) = some a
value_of _ = none

-- Nothing that the system or the libraries give here is null.
initialize-IsWhole :
    (v : Server String) (now : History) → initialize env [] ≡ done v now → IsWhole v
unfolding initialize new_store new_iso_store new_template_store load_all_vms load_entries load
    all_present Records.list Dict.values Dict.lookup ◌=ₛ◌
initialize-IsWhole v now e =
    subst IsWhole (some-injective _ _ (ap value_of e))
      (record { values = refl; isos = refl; templates = refl })

run-Answers_example :
    ((x : String) × (now : History) × (initialize env [] ≡ fail x now)
      × (run env accepting (map request requests) []
          ≡ ended (some ("failed to initialize: " <> x)) [] now))
    ⊎ ((v : Server String) × (start now : History) × (sent : List (Response ℕ)) × (initialize env []
          ≡ done v start)
        × (run env accepting (map request requests) [] ≡ ended none sent now)
        × Answers env (record { server = v; history = start }) requests sent)
unfolding method_of ◌=ₛ◌
run-Answers_example =
    run-Answers env accepting (λ sent r. refl) requests [] initialize-IsWhole
      (λ e. cc, (λ e. cc, (λ e. cc, (λ e. cc, tt))))

abbrev running_server : Server String
running_server = record {
  vm_manager = (with_web running_web).manager;
  disk_manager = record { disk_dir = "/disks"; zpool = "zroot" };
  iso_store = record { dir = "/isos"; db_path = "isos"; records = some [] };
  template_store = record { dir = "/templates"; db_path = "templates"; records = some [] };
  state_store = record { path = "/state/state.json"; values = some [] };
  config = default_config;
}

abbrev session : Session String ℕ
session = record { world = record { server = running_server; history = [] }; sent = [] }

serve-Hangs_example :
    serve env accepting
      (request (call 1 "vm/destroy" "web") ∷ request (call 2 "host/info" "") ∷ [])
      session
    ≡ deadlock
unfolding method_of ◌=ₛ◌ new_manager
serve-Hangs_example =
    serve-Hangs env accepting (call 1 "vm/destroy" "web") (request (call 2 "host/info" "") ∷ [])
      session running_web-WellFormed
      ("web", refl, (running_web, Dict.lookup-insert_self "web" running_web [], refl))

abbrev world : ServerWorld String
world = record { server = running_server; history = [] }

handle_request-refusal_example :
    handle_request env "vm/start" "" world
    ≡ fail ("invalid params" <> ": " <> "unexpected end of JSON input") world
unfolding method_of ◌=ₛ◌
handle_request-refusal_example =
    handle_request-refusal env "vm/start" "" world
      ("invalid params" <> ": " <> "unexpected end of JSON input") refl

handle-Keeps_example :
    Leaves (Keeps false true world) (handle env Method.iso_delete "iso/delete" "debian" world)
handle-Keeps_example =
    handle-Keeps env Method.iso_delete "iso/delete" "debian" world running_web-WellFormed

-- A record that was null in the state file.
abbrev with_null : ServerWorld String
with_null = record world {
  server = record running_server {
    iso_store = record { dir = "/isos"; db_path = "isos"; records = some (("x", none) ∷ []) };
  };
}

listing_null_panics : handle env Method.iso_list "iso/list" "" with_null ≡ deadlock
unfolding handle handle_list_isos Records.list Dict.values all_present
listing_null_panics = refl
