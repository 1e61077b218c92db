-- ===== src/Vm/Refinement/Steps.antt =====
-- Each method makes one move of the abstract machine.
use bhyve_mcp.Common.{
  ℤ, String, ◌≡◌, ◌≢◌, refl, ap, ◌∙◌, none, some, Bool, true, false, arith, Outcome, done, fail,
  deadlock, Bool-cases, Option-cases, inl, inr, if◌then◌else◌, eq_iff, eq_refl,
}
use bhyve_mcp.Common.Dict
use bhyve_mcp.Host.{Host}
use bhyve_mcp.Config.File.{Yaml}
use bhyve_mcp.Vm.Types.{Vm, VmState, is_running, World, Manager}
use bhyve_mcp.Vm.Lifecycle.{create, start, stop, destroy, get_state, new_vm_config, defined_vm}
use bhyve_mcp.Vm.Lifecycle.Access.{succeeded, with_entry}
use bhyve_mcp.Vm.Lifecycle.Start.{start_running, start_idle, started_vm, opens, sets_up, spawns}
use bhyve_mcp.Vm.Lifecycle.Stop.{stop_running, stop_idle, stopped_vm}
use bhyve_mcp.Vm.Lifecycle.Destroy.{destroy_idle, destroyed}
use bhyve_mcp.Vm.Lifecycle.Create.{create-known, create_new}
use bhyve_mcp.Vm.Lifecycle.State.{get_state_lem, observed, observed_state, result_of}
use bhyve_mcp.Vm.Lifecycle.Missing.{start_missing, stop_missing, destroy_missing, get_state_missing}
use bhyve_mcp.Vm.Invariant.{WellFormed, free}
use bhyve_mcp.Vm.Requests.{
  Request, create_vm, start_vm, stop_vm, destroy_vm, vm_state, perform, forget, DestroysRunning,
}
use bhyve_mcp.Vm.Refinement.{
  Op, refused, created, started, start_failed, halted, stop_failed, removed, seen, found_gone, view,
  state_of, moved, running_lem, view-with_entry, others-with_entry, started_state, RefinesAfter,
  unchanged, failed,
}

view-erase :
    (name : String) (m : Manager) → view name (record m { vms = Dict.erase name m.vms }) ≡ none
view-erase name m = ground (arith, Dict.lookup-erase name name m.vms, eq_refl name)

result-success :
    (o : Outcome World VmState) (s : VmState) → result_of o ≡ some s → succeeded o ≡ true
result-success (done a t) s e = refl
result-success (fail x t) s e = cc
result-success deadlock s e = cc

module _ (h : Host) (name : String) (w : World) (wf : WellFormed w.manager) where
  start-Refines : RefinesAfter (start_vm name) w (start h name w)
  start-Refines = elim (Option-cases (Dict.lookup name w.manager.vms)) [
    | inl e ↦ failed (start_vm name) w (start h name w) _ (start_missing name w wf.mu e h)
    | inr (v, e) ↦ elim (Bool-cases (is_running v.state)) [
      | inl r ↦
          let (p, q) = start_running h name v w (free name v w wf e) r in
          unchanged (start_vm name) w (start h name w) _ p q
      | inr r ↦
          let (p, q) = start_idle h name v w (free name v w wf e) r in
          let v' = started_vm (opens h name v w) (sets_up h name v w) (spawns h name v w) name v in
          let at = view-with_entry name v' w.manager in
          let before = ap state_of e in
          (
            _,
            p,
            record {
              moves =
                  elim (started_state (opens h name v w) (sets_up h name v w) (spawns h name v w)
                    name v) [
                      | inl (t, s) ↦
                          moved Op.starts (started v.state r) (q ∙ t) before (at ∙ ap some s)
                      | inr (t, s) ↦
                          moved Op.starts (start_failed v.state r) (q ∙ t) before (at ∙ ap some s)
                    ];
              others = others-with_entry name v' w.manager;
            },
          )
    ]
  ]

  stop-Refines : RefinesAfter (stop_vm name) w (stop h name w)
  stop-Refines = elim (Option-cases (Dict.lookup name w.manager.vms)) [
    | inl e ↦ failed (stop_vm name) w (stop h name w) _ (stop_missing name w wf.mu e h)
    | inr (v, e) ↦ elim (Bool-cases (is_running v.state)) [
      | inr r ↦
          let (p, q) = stop_idle h name v w (free name v w wf e) r in
          unchanged (stop_vm name) w (stop h name w) _ p q
      | inl r ↦
          let b = succeeded (stop h name w) in
          let before = ap state_of e ∙ ap some (running_lem v.state r) in
          (
            _,
            stop_running h name v w (free name v w wf e) r,
            record {
              moves = elim (Bool-cases b) [
                | inl t ↦
                    moved Op.stops halted t before
                      (view-with_entry name (stopped_vm b v) w.manager ∙ rw t refl)
                | inr t ↦
                    moved Op.stops stop_failed t before
                      (view-with_entry name (stopped_vm b v) w.manager ∙ rw t refl)
              ];
              others = others-with_entry name (stopped_vm b v) w.manager;
            },
          )
    ]
  ]

  others-destroyed :
      (b : Bool) (v : Vm) (j : String)
      → j ≢ name
      → view j (destroyed b name v w.manager) ≡ view j w.manager
  others-destroyed true v j n =
      ground (arith, Dict.lookup-erase j name w.manager.vms, eq_iff name j)
  others-destroyed false v j n = others-with_entry name _ w.manager j n

  destroy-Refines :
      ((v : Vm) → Dict.lookup name w.manager.vms ≡ some v → is_running v.state ≡ false)
      → RefinesAfter (destroy_vm name) w (destroy h name w)
  destroy-Refines idle = elim (Option-cases (Dict.lookup name w.manager.vms)) [
    | inl e ↦ failed (destroy_vm name) w (destroy h name w) _ (destroy_missing name w wf.mu e h)
    | inr (v, e) ↦
        let r = idle v e in
        let b = succeeded (destroy h name w) in
        let before = ap state_of e in
        (
          _,
          destroy_idle h name v w (free name v w wf e) r,
          record {
            moves = elim (Bool-cases b) [
              | inl t ↦
                  moved Op.destroys (removed v.state r) t before (rw t (view-erase name w.manager))
              | inr t ↦ moved Op.destroys (refused Op.destroys (some v.state)) t before (
                  rw t (
                    view-with_entry name (record v { vmmapi_vm = none; locked = false }) w.manager))
            ];
            others = others-destroyed b v;
          },
        )
  ]

  get_state-Refines : RefinesAfter (vm_state name) w (get_state h name w)
  get_state-Refines = elim (Option-cases (Dict.lookup name w.manager.vms)) [
    | inl e ↦ failed (vm_state name) w (get_state h name w) _ (get_state_missing name w wf.mu e h)
    | inr (v, e) ↦
        let (p, q) = get_state_lem h name v w (free name v w wf e) in
        let t = result-success (get_state h name w) _ q in
        let at = view-with_entry name (observed h w v) w.manager in
        let before = ap state_of e in
        (
          _,
          p,
          record {
            moves = elim (observed_state h w v) [
              | inl s ↦ moved Op.observes (seen v.state) t before (at ∙ ap some s)
              | inr (r, s) ↦
                  moved Op.observes found_gone t (before ∙ ap some (running_lem v.state r))
                    (at ∙ ap some s)
            ];
            others = others-with_entry name (observed h w v) w.manager;
          },
        )
  ]

  others-added :
      (b : Bool) (v : Vm) (j : String)
      → j ≢ name
      → view j (if b then with_entry name v w.manager else w.manager) ≡ view j w.manager
  others-added true v j n = others-with_entry name v w.manager j n
  others-added false v j n = refl

  create-Refines :
      (y : Yaml) (cpu : ℤ) (memory : String)
      → RefinesAfter (create_vm name cpu memory) w (create h y name cpu memory w)
  create-Refines y cpu memory = elim (Option-cases (Dict.lookup name w.manager.vms)) [
    | inr (v, e) ↦
        failed (create_vm name cpu memory) w (create h y name cpu memory w) _
          (create-known h y name w wf.mu cpu memory (ground arith))
    | inl e ↦
        let b = succeeded (create h y name cpu memory w) in
        let v = defined_vm name (new_vm_config w.manager name cpu memory) in
        (
          _,
          create_new h y name w wf.mu cpu memory (ground arith),
          record {
            moves = elim (Bool-cases b) [
              | inl t ↦
                  moved Op.creates created t (ap state_of e)
                    (rw t (view-with_entry name v w.manager))
              | inr t ↦
                  moved Op.creates (refused Op.creates none) t (ap state_of e)
                    (rw t (ap state_of e))
            ];
            others = others-added (succeeded (create h y name cpu memory w)) v;
          },
        )
  ]

forgotten :
    {A : Type 0} (r : Request) (w : World) (o : Outcome World A)
    → RefinesAfter r w o
    → RefinesAfter r w (forget (λ _. o) w)
forgotten r w (done a t) p = p
forgotten r w (fail x t) p = p
forgotten r w deadlock p = p

-- In a well-formed manager every request that is not to destroy a running machine comes back, and
-- has made one move of the abstract machine at its name, the move of its reported success or
-- failure, and none at another name.
pub perform-Refines :
    (h : Host) (y : Yaml) (r : Request) (w : World)
    → WellFormed w.manager
    → ¬ DestroysRunning r w
    → RefinesAfter r w (perform h y r w)
unfolding perform
perform-Refines h y (create_vm name cpu memory) w wf n = create-Refines h name w wf y cpu memory
perform-Refines h y (start_vm name) w wf n = start-Refines h name w wf
perform-Refines h y (stop_vm name) w wf n = stop-Refines h name w wf
perform-Refines h y (destroy_vm name) w wf n =
    destroy-Refines h name w wf
      (λ v e. elim (Bool-cases (is_running v.state)) [ inl r ↦ absurd (n (v, e, r)) | inr r ↦ r ])
perform-Refines h y (vm_state name) w wf n =
    forgotten (vm_state name) w (get_state h name w) (get_state-Refines h name w wf)
