-- ===== src/Vm/Lifecycle/Access.antt =====
-- A machine that no goroutine holds: what `Get` finds, and what its mutex lets through.
use bhyve_mcp.Common.{
  String, ◌≡◌, Option, none, some, Bool, true, false, arith, Exec, Outcome, done, fail, deadlock,
  deferred,
}
use bhyve_mcp.Common.Dict
use bhyve_mcp.Vm.Types.{Vm, World, Manager, unlocked, set_locked, with_vm}
use bhyve_mcp.Vm.Lifecycle.{get}

-- The manager when a method has come back, if it does.
abbrev pub manager_after : {A : Type 0} → Outcome World A → Option Manager
manager_after (done _ w) = some w.manager
manager_after (fail _ w) = some w.manager
manager_after deadlock = none

-- The state when a method has come back, if it does.
abbrev pub world_after : {A : Type 0} → Outcome World A → Option World
world_after (done _ w) = some w
world_after (fail _ w) = some w
world_after deadlock = none

abbrev pub succeeded : {A : Type 0} → Outcome World A → Bool
succeeded (done _ w) = true
succeeded _ = false

-- The error text of a method that has failed.
abbrev pub error_of : {A : Type 0} → Outcome World A → Option String
error_of (fail e _) = some e
error_of _ = none

-- The manager with another object under a name.
abbrev pub with_entry : String → Vm → Manager → Manager
with_entry name v m = record m { vms = Dict.insert name v m.vms }

abbrev pub holding : String → Vm → World → World
holding name v w = record w { manager = with_entry name v w.manager }

-- The machine is known under the name, and no lock is held: neither the manager's nor its own.
pub record IsFree (name : String) (v : Vm) (w : World) : Type 0 where
  pub mu : w.manager.mu ≡ unlocked
  pub entry : Dict.lookup name w.manager.vms ≡ some v
  pub lock : v.locked ≡ false

module _ (name : String) (w : World) (mu : w.manager.mu ≡ unlocked) where
  pub get_found : (v : Vm) → Dict.lookup name w.manager.vms ≡ some v → get name w ≡ done v w
  unfolding get
  get_found v entry = ground arith

module _ {A : Type 0} (name : String) (v : Vm) (w : World) (m : Exec World A) where
  pub with_vm_free :
      Dict.lookup name w.manager.vms ≡ some v
      → v.locked ≡ false
      → with_vm name m w
        ≡ deferred (set_locked false name) m (holding name (record v { locked = true }) w)
  with_vm_free entry lock =
      ground (arith, Dict.modify_found name (λ v. record v { locked = true }) v w.manager.vms)

  pub with_vm_held :
      Dict.lookup name w.manager.vms ≡ some v → v.locked ≡ true → with_vm name m w ≡ deadlock
  with_vm_held entry lock = ground arith
