-- ===== src/Vm/Refinement.antt =====
-- The manager as a client sees it: the states of the machines, by name. What each request may do to
-- them, and that the methods do nothing else.
pub mod Steps
use bhyve_mcp.Common.{
  ℕ, ℤ, String, ◌≡◌, ◌≢◌, refl, sym, ap, subst, ◌∙◌, Option, none, some, Bool, true, false, not,
  arith, Outcome, done, fail, deadlock, Bool-cases, Option-cases, ◌⊎◌, inl, inr, if◌then◌else◌,
  eq_iff, is_zero,
}
use bhyve_mcp.Common.Dict
use bhyve_mcp.Host.{Host, Reply, good, bad}
use bhyve_mcp.Config.File.{Yaml}
use bhyve_mcp.Vm.Types.{Vm, VmState, defined, running, stopped, error, is_running, World, Manager}
use bhyve_mcp.Vm.Lifecycle.{
  create, start, stop, destroy, get_state, known, new_vm_config, defined_vm,
}
use bhyve_mcp.Vm.Lifecycle.Access.{manager_after, succeeded, error_of, with_entry, IsFree}
use bhyve_mcp.Vm.Lifecycle.Start.{start_running, start_idle, started_vm, opens, sets_up, spawns}
use bhyve_mcp.Vm.Lifecycle.Stop.{stop_running, stop_idle, stopped_vm}
use bhyve_mcp.Vm.Lifecycle.Destroy.{destroy_idle, destroyed}
use bhyve_mcp.Vm.Lifecycle.Create.{create-known, create_new}
use bhyve_mcp.Vm.Lifecycle.State.{get_state_lem, observed, result_of}
use bhyve_mcp.Vm.Lifecycle.Missing.{start_missing, stop_missing, destroy_missing, get_state_missing}
use bhyve_mcp.Vm.Invariant.{WellFormed, free}
use bhyve_mcp.Vm.Requests.{
  Request, create_vm, start_vm, stop_vm, destroy_vm, vm_state, perform, forget, DestroysRunning,
}

abbrev pub state_of : Option Vm → Option VmState
state_of none = none
state_of (some v) = some v.state

-- The abstract state: what a name stands for.
abbrev pub view : String → Manager → Option VmState
view name m = state_of (Dict.lookup name m.vms)

pub data Op : Type 0 where
  creates starts stops destroys observes : Op

abbrev pub op_of : Request → Op
op_of (create_vm _ _ _) = Op.creates
op_of (start_vm _) = Op.starts
op_of (stop_vm _) = Op.stops
op_of (destroy_vm _) = Op.destroys
op_of (vm_state _) = Op.observes

abbrev pub name_of : Request → String
name_of (create_vm name _ _) = name
name_of (start_vm name) = name
name_of (stop_vm name) = name
name_of (destroy_vm name) = name
name_of (vm_state name) = name

-- The abstract machine: an operation, whether it reports success, and the state before and after.
pub data Moves : Op → Bool → Option VmState → Option VmState → Type 0 where
  refused : (o : Op) (s : Option VmState) → Moves o false s s
  created : Moves Op.creates true none (some defined)
  started : (s : VmState) → is_running s ≡ false → Moves Op.starts true (some s) (some running)
  start_failed : (s : VmState) → is_running s ≡ false → Moves Op.starts false (some s) (some error)
  halted : Moves Op.stops true (some running) (some stopped)
  stop_failed : Moves Op.stops false (some running) (some error)
  removed : (s : VmState) → is_running s ≡ false → Moves Op.destroys true (some s) none
  seen : (s : VmState) → Moves Op.observes true (some s) (some s)
  found_gone : Moves Op.observes true (some running) (some stopped)

-- A request makes one move at its name, and none at any other.
pub record Refines (r : Request) (success : Bool) (m n : Manager) : Type 0 where
  pub moves : Moves (op_of r) success (view (name_of r) m) (view (name_of r) n)
  pub others : (j : String) → j ≢ name_of r → view j n ≡ view j m

pub moved :
    (o : Op) {b c : Bool} {s t u v : Option VmState}
    → Moves o b s t
    → c ≡ b
    → u ≡ s
    → v ≡ t
    → Moves o c u v
moved o {b} {c} {s} {t} {u} {v} m p q r =
    subst (λ x. Moves o x u v) (sym p)
      (subst (λ x. Moves o b x v) (sym q) (subst (λ x. Moves o b s x) (sym r) m))

pub running_lem : (s : VmState) → is_running s ≡ true → s ≡ running
running_lem s r = ground arith

pub view-with_entry :
    (name : String) (v : Vm) (m : Manager) → view name (with_entry name v m) ≡ some v.state
view-with_entry name v m = ap state_of (Dict.lookup-insert_self name v m.vms)

pub others-with_entry :
    (name : String) (v : Vm) (m : Manager) (j : String)
    → j ≢ name
    → view j (with_entry name v m) ≡ view j m
others-with_entry name v m j n = ground (arith, Dict.lookup-insert j name v m.vms, eq_iff name j)

-- A call that reports an error has not succeeded.
error-not_success :
    {A : Type 0} (o : Outcome World A) (x : String) → error_of o ≡ some x → succeeded o ≡ false
error-not_success (done a t) x e = cc
error-not_success (fail y t) x e = refl
error-not_success deadlock x e = refl

pub started_state :
    (c : Option ℕ) (ret : ℤ) (reply : Reply ℕ) (name : String) (v : Vm)
    → let s = (started_vm c ret reply name v).state in
      ((is_running s ≡ true) × (s ≡ running)) ⊎ ((is_running s ≡ false) × (s ≡ error))
started_state none ret reply name v = inr (refl, refl)
started_state (some c) ret (bad f) name v = inr (refl, refl)
started_state (some c) ret (good pid) name v = elim (Bool-cases (is_zero ret)) [
  | inl z ↦ inl (ground arith, ground arith)
  | inr z ↦ inr (ground arith, ground arith)
]

abbrev pub RefinesAfter : {A : Type 0} → Request → World → Outcome World A → Type 0
RefinesAfter r w o =
    (n : Manager) × (manager_after o ≡ some n) × Refines r (succeeded o) w.manager n

module _ {A : Type 0} (r : Request) (w : World) (o : Outcome World A) where
  pub unchanged :
      (x : String) → manager_after o ≡ some w.manager → error_of o ≡ some x → RefinesAfter r w o
  unchanged x e f = (
    w.manager,
    e,
    record {
      moves =
          moved (op_of r) (refused (op_of r) (view (name_of r) w.manager)) (error-not_success o x f)
            refl refl;
      others = λ j n. refl;
    },
  )

  pub failed : (x : String) → o ≡ fail x w → RefinesAfter r w o
  failed x e = unchanged x (rw e refl) (rw e refl)
