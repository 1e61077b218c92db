-- ===== src/Vm/Types.antt =====
-- The state of the manager, with its mutexes, and steps that read and write it.
use bhyve_mcp.Common.{
  [], ℕ, ℤ, ◌-◌, suc, ltb, String, ◌<>◌, Bool, true, false, ◌||◌, Option, none, some, Exec, done,
  fail, deadlock, catch, deferred, throw, put, ◌>>◌,
}
use bhyve_mcp.Common.Dict
use bhyve_mcp.Common.Dict.{Dict}
use bhyve_mcp.Host.{History}
use bhyve_mcp.Config.{Config, VmConfig}
use bhyve_mcp.Vmmapi.{Handle}

-- The strings of the type `VMState`.
pub data VmState : Type 0 where
  defined starting running stopping stopped error : VmState

pub state_text : VmState → String
state_text defined = "defined"
state_text starting = "starting"
state_text running = "running"
state_text stopping = "stopping"
state_text stopped = "stopped"
state_text error = "error"

abbrev pub is_running : VmState → Bool
is_running running = true
is_running _ = false

-- The struct `VM`. `locked` is its mutex.
pub record Vm : Type 0 where
  pub name : String
  pub config : VmConfig
  pub state : VmState
  pub process : Option ℕ
  pub vmmapi_vm : Option Handle
  pub locked : Bool

-- A `sync.RWMutex`.
pub record RwMutex : Type 0 where
  pub writer : Bool
  pub readers : ℕ

pub record Manager : Type 0 where
  pub config : Config
  pub vms : Dict Vm
  pub mu : RwMutex
  pub vnc_port_next : ℤ

-- What a request sees and changes.
pub record World : Type 0 where
  pub manager : Manager
  pub history : History

abbrev pub unlocked : RwMutex
unlocked = record { writer = false; readers = 0 }

unfoldable pub new_manager : Config → Manager
new_manager cfg = record {
  config = cfg;
  vms = [];
  mu = unlocked;
  vnc_port_next = cfg.vnc.base_port;
}

abbrev pub set_vms : (Dict Vm → Dict Vm) → World → World
set_vms f w = record w { manager = record (w.manager) { vms = f w.manager.vms } }

abbrev pub set_mu : RwMutex → World → World
set_mu l w = record w { manager = record (w.manager) { mu = l } }

-- A change of the object that the map holds under a name.
abbrev pub update_vm : String → (Vm → Vm) → Exec World (Unit {0})
update_vm name f = put (set_vms (Dict.modify name f))

abbrev pub set_state : String → VmState → Exec World (Unit {0})
set_state name st = update_vm name (λ v. record v { state = st })

-- A call of the operating system.
abbrev pub on_host : {A : Type 0} → Exec History A → Exec World A
on_host m w = elim (m w.history) [
  | done a past ↦ done a (record w { history = past })
  | fail e past ↦ fail e (record w { history = past })
  | deadlock ↦ deadlock
]

-- A step that runs unless a wait for a mutex would not end.
abbrev pub unless_held : {A : Type 0} → Bool → Exec World A → Exec World A
unless_held true m w = deadlock
unless_held false m w = m w

-- `m.mu.RLock(); defer m.mu.RUnlock()`
abbrev pub with_read : {A : Type 0} → Exec World A → Exec World A
with_read m w =
    let l = w.manager.mu in
    unless_held l.writer
      (λ u.
        deferred (λ t. set_mu (record (t.manager.mu) { readers = t.manager.mu.readers - 1 }) t) m
          (set_mu (record l { readers = suc l.readers }) u))
      w

-- `m.mu.Lock(); defer m.mu.Unlock()`
abbrev pub with_write : {A : Type 0} → Exec World A → Exec World A
with_write m w =
    let l = w.manager.mu in
    unless_held (l.writer || ltb 0 l.readers)
      (λ u.
        deferred (λ t. set_mu (record (t.manager.mu) { writer = false }) t) m
          (set_mu (record l { writer = true }) u))
      w

-- The mutex of the machine that is found under a name.
abbrev pub is_locked : String → World → Bool
is_locked name w = elim (Dict.lookup name w.manager.vms) [ none ↦ false | some v ↦ v.locked ]

abbrev pub set_locked : Bool → String → World → World
set_locked b name = set_vms (Dict.modify name (λ v. record v { locked = b }))

-- `vm.mu.Lock(); defer vm.mu.Unlock()`
abbrev pub with_vm : {A : Type 0} → String → Exec World A → Exec World A
with_vm name m w =
    unless_held (is_locked name w)
      (λ u. deferred (set_locked false name) m (set_locked true name u)) w

-- `if err := m; err != nil { vm.State = StateError; return fmt.Errorf("text: %w", err) }`
abbrev pub or_error : {A : Type 0} → String → String → Exec World A → Exec World A
or_error name text m = catch m (λ e. set_state name error >> throw (text <> ": " <> e))
