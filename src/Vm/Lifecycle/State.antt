-- ===== src/Vm/Lifecycle/State.antt =====
-- What `GetState` does.
use bhyve_mcp.Common.{
  refl, Bool-cases, ◌⊎◌, inl, inr, ℕ, String, ◌≡◌, Option, none, some, Bool, true, false, arith,
  Outcome, done, ◌>>=◌, if◌then◌else◌,
}
use bhyve_mcp.Common.Dict
use bhyve_mcp.Host.{Host, Reply, good, bad}
use bhyve_mcp.Vm.Types.{Vm, World, is_running, stopped}
use bhyve_mcp.Vm.Lifecycle.{get_state, get_state_locked}
use bhyve_mcp.Vm.Lifecycle.Access.{manager_after, with_entry, IsFree, get_found, with_vm_free}

abbrev pub result_of : {A : Type 0} → Outcome World A → Option A
result_of (done a _) = some a
result_of _ = none

abbrev answers : Reply (Unit {0}) → Bool
answers (good _) = true
answers (bad _) = false

-- The process is there and signal 0 does not reach it.
abbrev process_gone : Host → World → Option ℕ → Bool
process_gone h w none = false
process_gone h w (some pid) = if answers (h.signal w.history pid 0) then false else true

-- A running machine whose process is gone becomes stopped, and loses its handle.
abbrev pub observed : Host → World → Vm → Vm
observed h w v =
    if is_running v.state
    then if process_gone h w v.process then record v { state = stopped; vmmapi_vm = none } else v
    else v

-- The state is as before, or it was running and is stopped.
pub observed_state :
    (h : Host) (w : World) (v : Vm)
    → ((observed h w v).state ≡ v.state)
      ⊎ ((is_running v.state ≡ true) × ((observed h w v).state ≡ stopped))
observed_state h w v = elim (Bool-cases (is_running v.state)) [
  | inr r ↦ inl (rw r refl)
  | inl r ↦ elim (Bool-cases (process_gone h w v.process)) [
    | inl g ↦ inr (r, ground (arith, r, g))
    | inr g ↦ inl (ground (arith, r, g))
  ]
]

module _ (h : Host) (name : String) (v : Vm) (w : World) (free : IsFree name v w) where
  -- `GetState` comes back with the state that the machine then has, and with no lock held: a running
  -- machine whose process does not take signal 0 becomes stopped and loses its handle; any other
  -- machine is as before.
  pub get_state_lem :
      let v' = observed h w v in
      let o = get_state h name w in
      (manager_after o ≡ some (with_entry name v' w.manager)) × (result_of o ≡ some v'.state)
  unfolding get_state
  get_state_lem =
      rw (get_found name w free.mu v free.entry, get_state, ◌>>=◌)
        (rw (with_vm_free name v w (get_state_locked h name v) free.entry free.lock)
          (grind (arith, Dict.modify-insert_self, free.lock)))
