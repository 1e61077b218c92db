-- ===== src/Vm/Invariant.antt =====
-- What holds of the manager between two requests.
use bhyve_mcp.Common.{
  is_some, ℕ, ℤ, String, ◌≡◌, refl, Option, none, some, Bool, true, false, arith, Outcome, eq_iff,
}
use bhyve_mcp.Common.Dict
use bhyve_mcp.Host.{Host, Reply}
use bhyve_mcp.Config.{Config}
use bhyve_mcp.Vmmapi.{Handle}
use bhyve_mcp.Vm.Types.{
  VmState, Vm, World, Manager, starting, stopping, is_running, unlocked, new_manager,
}
use bhyve_mcp.Vm.Lifecycle.{new_vm_config, defined_vm}
use bhyve_mcp.Vm.Lifecycle.Access.{manager_after, with_entry, IsFree}
use bhyve_mcp.Vm.Lifecycle.Start.{started_vm}
use bhyve_mcp.Vm.Lifecycle.Stop.{stopped_vm}
use bhyve_mcp.Vm.Lifecycle.Destroy.{destroyed}
use bhyve_mcp.Vm.Lifecycle.State.{observed}

-- `StateStarting` and `StateStopping` are seen only inside a method.
abbrev pub at_rest : VmState → Bool
at_rest starting = false
at_rest stopping = false
at_rest _ = true

abbrev pub handle_open : Option Handle → Bool
handle_open none = true
handle_open (some v) = is_some v.ctx

-- A machine between two requests: nobody holds its mutex, a handle that it keeps is open, and it
-- runs only with a process and a handle.
pub record IsSettled (name : String) (v : Vm) : Type 0 where
  pub lock : v.locked ≡ false
  pub named : v.name ≡ name
  pub rest : at_rest v.state ≡ true
  pub handle : handle_open v.vmmapi_vm ≡ true
  pub process : is_running v.state ≡ true → is_some v.process ≡ true
  pub attached : is_running v.state ≡ true → is_some v.vmmapi_vm ≡ true

pub record WellFormed (m : Manager) : Type 0 where
  pub mu : m.mu ≡ unlocked
  pub vms : (name : String) (v : Vm) → Dict.lookup name m.vms ≡ some v → IsSettled name v

pub new_manager-WellFormed : (cfg : Config) → WellFormed (new_manager cfg)
unfolding new_manager Dict.lookup
new_manager-WellFormed cfg = record { mu = refl; vms = λ name v e. cc }

pub with_entry-WellFormed :
    (name : String) (v : Vm) (m : Manager)
    → WellFormed m
    → IsSettled name v
    → WellFormed (with_entry name v m)
with_entry-WellFormed name v m wf s = record {
  mu = wf.mu;
  vms = λ j u e. ground (arith, Dict.lookup-insert j name v m.vms, wf.vms j u, eq_iff name j);
}

pub erase-WellFormed :
    (name : String) (m : Manager)
    → WellFormed m
    → WellFormed (record m { vms = Dict.erase name m.vms })
erase-WellFormed name m wf = record {
  mu = wf.mu;
  vms = λ j u e. ground (arith, Dict.lookup-erase j name m.vms, wf.vms j u);
}

pub port-WellFormed :
    (p : ℤ) (m : Manager) → WellFormed m → WellFormed (record m { vnc_port_next = p })
port-WellFormed p m wf = record { mu = wf.mu; vms = wf.vms }

-- The method comes back, and leaves a well-formed manager.
abbrev pub Settles : {A : Type 0} → Outcome World A → Type 0
Settles o = (m : Manager) × (manager_after o ≡ some m) × WellFormed m

module _ (name : String) (v : Vm) (s : IsSettled name v) where
  pub started_vm-IsSettled :
      (c : Option ℕ) (ret : ℤ) (r : Reply ℕ) → IsSettled name (started_vm c ret r name v)
  started_vm-IsSettled c ret r = ground (arith, s.named)

  pub stopped_vm-IsSettled : (b : Bool) → IsSettled name (stopped_vm b v)
  stopped_vm-IsSettled b = ground (arith, s.named)

  pub observed-IsSettled : (h : Host) (w : World) → IsSettled name (observed h w v)
  observed-IsSettled h w = ground (arith, s.named, s.lock)

  pub destroyed-WellFormed :
      (b : Bool) (m : Manager)
      → WellFormed m
      → is_running v.state ≡ false
      → WellFormed (destroyed b name v m)
  destroyed-WellFormed true m wf r = erase-WellFormed name m wf
  destroyed-WellFormed false m wf r =
      with_entry-WellFormed name _ m wf (ground (arith, s.named, s.rest))

pub defined_vm-IsSettled :
    (name : String) (m : Manager) (cpu : ℤ) (memory : String)
    → IsSettled name (defined_vm name (new_vm_config m name cpu memory))
defined_vm-IsSettled name m cpu memory = ground arith

pub free :
    (name : String) (v : Vm) (w : World)
    → WellFormed w.manager
    → Dict.lookup name w.manager.vms ≡ some v
    → IsFree name v w
free name v w wf e = record { mu = wf.mu; entry = e; lock = (wf.vms name v e).lock }
