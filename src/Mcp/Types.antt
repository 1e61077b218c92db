-- ===== src/Mcp/Types.antt =====
-- The state of the server, the parameters of its requests and the values of its answers.
use bhyve_mcp.Common.{
  Option, ℤ, String, Bool, true, List, ◌∷◌, Exec, Result, zoom, context, lift_result,
}
use bhyve_mcp.Host.{Host, History}
use bhyve_mcp.Config.{Config}
use bhyve_mcp.Config.File.{Yaml}
use bhyve_mcp.Disk.{Disks}
use bhyve_mcp.Store.{Json, Store}
use bhyve_mcp.Store.Records.{IsoRecord, TemplateRecord, Codec, RecordStore, RecordWorld}
use bhyve_mcp.Vm.Types.{Manager, World}

-- The struct `Server`, once it is initialized. The network manager has no state that a method reads.
pub record Server (V : Type 0) : Type 0 where
  pub vm_manager : Manager
  pub disk_manager : Disks
  pub iso_store : RecordStore (Option IsoRecord)
  pub template_store : RecordStore (Option TemplateRecord)
  pub state_store : Store V
  pub config : Config

pub record ServerWorld (V : Type 0) : Type 0 where
  pub server : Server V
  pub history : History

pub record CreateVmParams : Type 0 where
  pub name : String
  pub cpu : ℤ
  pub memory : String

pub record VmNameParams : Type 0 where
  pub name : String

pub record CreateDiskParams : Type 0 where
  pub name : String
  pub size : String
  pub disk_type : String

pub record ResizeDiskParams : Type 0 where
  pub name : String
  pub size : String
  pub disk_type : String

pub record CloneDiskParams : Type 0 where
  pub source : String
  pub dest : String
  pub disk_type : String

pub record CreateSwitchParams : Type 0 where
  pub name : String
  pub physical_interface : String

-- encoding/json on the raw parameters `P` of a request, at each type of parameters.
pub record Decoder (P : Type 0) : Type 0 where
  pub create_vm : P → Result CreateVmParams
  pub vm_name : P → Result VmNameParams
  pub create_disk : P → Result CreateDiskParams
  pub resize_disk : P → Result ResizeDiskParams
  pub clone_disk : P → Result CloneDiskParams
  pub create_switch : P → Result CreateSwitchParams

-- What the server runs on: the system and the libraries. `V` are the values of the state store, and
-- `P` the raw parameters.
pub record Env (V P : Type 0) : Type 0 where
  pub host : Host
  pub yaml : Yaml
  pub json : Json V
  pub isos : Codec V (Option IsoRecord)
  pub templates : Codec V (Option TemplateRecord)
  pub decoder : Decoder P

-- The answers are maps from keys to values, in the order of the source.
pub data Leaf : Type 0 where
  text : String → Leaf
  number : ℤ → Leaf
  flag : Bool → Leaf
  texts : List String → Leaf

abbrev pub Entries : Type 0
Entries = List (String × Leaf)

pub data Value : Type 0 where
  leaf : Leaf → Value
  object : Entries → Value
  objects : List Entries → Value

abbrev pub Answer : Type 0
Answer = List (String × Value)

-- `map[string]interface{}{"success": true, ...}`
abbrev pub success : Answer → Answer
success rest = ("success", leaf (flag true)) ∷ rest

abbrev pub text_entry : String → String → String × Value
text_entry key s = (key, leaf (text s))

-- What the VM manager, and what the ISO store sees of the server.
abbrev pub machine_world : {V : Type 0} → ServerWorld V → World
machine_world w = record { manager = w.server.vm_manager; history = w.history }

abbrev pub iso_world : {V : Type 0} → ServerWorld V → RecordWorld V (Option IsoRecord)
iso_world w = record {
  own = w.server.iso_store;
  under = record { store = w.server.state_store; history = w.history };
}

module _ {V A : Type 0} where
  -- A method of the VM manager.
  abbrev pub on_machines : Exec World A → Exec (ServerWorld V) A
  on_machines =
      zoom machine_world (λ t w. record {
        server = record (w.server) { vm_manager = t.manager };
        history = t.history;
      })

  -- A call that changes nothing of the server.
  abbrev pub on_host : Exec History A → Exec (ServerWorld V) A
  on_host = zoom (λ w. w.history) (λ t w. record w { history = t })

  -- A method of the disk manager.
  abbrev pub on_disks : (Disks → Exec History A) → Exec (ServerWorld V) A
  on_disks m w = on_host (m w.server.disk_manager) w

  -- A method of the ISO store, over the state store.
  abbrev pub on_isos : Exec (RecordWorld V (Option IsoRecord)) A → Exec (ServerWorld V) A
  on_isos = zoom iso_world (λ t w. record {
    server = record (w.server) { iso_store = t.own; state_store = t.under.store };
    history = t.under.history;
  })

  -- `json.Unmarshal(params, &p)`, for parameters of one type.
  abbrev pub decoded : Result A → Exec (ServerWorld V) A
  decoded r = context "invalid params" (lift_result r)
