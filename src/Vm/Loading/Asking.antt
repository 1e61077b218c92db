-- ===== src/Vm/Loading/Asking.antt =====
-- What `List` and `GetStatus` answer.
use bhyve_mcp.Common.{String, ◌≡◌, some, arith, inl, inr, Option-cases, pure, ◌>>=◌}
use bhyve_mcp.Common.Dict
use bhyve_mcp.Vm.Types.{Vm, World}
use bhyve_mcp.Vm.Lifecycle.Access.{manager_after, get_found, with_vm_free, IsFree}
use bhyve_mcp.Vm.Lifecycle.Missing.{get_missing}
use bhyve_mcp.Vm.Invariant.{WellFormed, Settles, free}
use bhyve_mcp.Vm.Loading.{list, get_status, status_of}

pub list_kept : (w : World) → WellFormed w.manager → manager_after (list w) ≡ some w.manager
unfolding list
list_kept w wf = ground (arith, wf.mu)

pub list-Settles : (w : World) → WellFormed w.manager → Settles (list w)
list-Settles w wf = (w.manager, list_kept w wf, wf)

-- `GetStatus` of a free machine tells of it, and changes no machine.
get_status_found :
    (name : String) (v : Vm) (w : World)
    → IsFree name v w
    → manager_after (get_status name w) ≡ some w.manager
unfolding get_status
get_status_found name v w free =
    rw (get_found name w free.mu v free.entry, get_status, ◌>>=◌)
      (rw (with_vm_free name v w (pure (status_of v)) free.entry free.lock)
        (grind (arith, Dict.modify-insert_self, Dict.insert_found, free.lock)))

pub get_status_kept :
    (name : String) (w : World)
    → WellFormed w.manager
    → manager_after (get_status name w) ≡ some w.manager
unfolding get_status
get_status_kept name w wf = elim (Option-cases (Dict.lookup name w.manager.vms)) [
  | inl e ↦ rw (get_missing name w wf.mu e, get_status, ◌>>=◌)
  | inr (v, e) ↦ get_status_found name v w (free name v w wf e)
]

pub get_status-Settles :
    (name : String) (w : World) → WellFormed w.manager → Settles (get_status name w)
get_status-Settles name w wf = (w.manager, get_status_kept name w wf, wf)
