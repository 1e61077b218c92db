-- ===== src/Vm/Requests.antt =====
-- The requests that reach the manager one at a time, and what every history of them keeps.
use bhyve_mcp.Common.{
  ℤ, String, ◌≡◌, sym, ap, subst, ◌∙◌, some, Bool, true, false, arith, fail, deadlock, Outcome,
  done, Exec, Bool-cases, Option-cases, inl, inr, ◌⊎◌, if◌then◌else◌, ◌>>◌, pure,
}
use mathlib.Core.Option.{some-injective}
use bhyve_mcp.Common.Dict
use bhyve_mcp.Host.{Host, History}
use bhyve_mcp.Config.{Config}
use bhyve_mcp.Config.File.{Yaml}
use bhyve_mcp.Vm.Types.{Vm, World, Manager, is_running, new_manager}
use bhyve_mcp.Vm.Lifecycle.{start, stop, destroy, create, get_state, known}
use bhyve_mcp.Vm.Lifecycle.Access.{world_after, manager_after, succeeded}
use bhyve_mcp.Vm.Lifecycle.Start.{start_running, start_idle, opens, sets_up, spawns}
use bhyve_mcp.Vm.Lifecycle.Stop.{stop_running, stop_idle}
use bhyve_mcp.Vm.Lifecycle.Destroy.{destroy_running, destroy_idle}
use bhyve_mcp.Vm.Lifecycle.Create.{create-known, create_new}
use bhyve_mcp.Vm.Lifecycle.State.{get_state_lem}
use bhyve_mcp.Vm.Lifecycle.Missing.{start_missing, stop_missing, destroy_missing, get_state_missing}
use bhyve_mcp.Vm.Loading.{load_all_vms}
use bhyve_mcp.Vm.Loading.Startup.{load_all_vms-Extends}
use bhyve_mcp.Vm.Invariant.{
  WellFormed, Settles, with_entry-WellFormed, port-WellFormed, started_vm-IsSettled,
  stopped_vm-IsSettled, observed-IsSettled, destroyed-WellFormed, defined_vm-IsSettled, free,
  new_manager-WellFormed,
}

-- A request that changes the machines.
pub data Request : Type 0 where
  create_vm : String → ℤ → String → Request
  start_vm stop_vm destroy_vm vm_state : String → Request

settles :
    {A : Type 0} (o : Outcome World A) (m : Manager)
    → manager_after o ≡ some m
    → WellFormed m
    → Settles o
settles o m e wf = (m, e, wf)

-- A failed call leaves its manager as the next request's.
failed-Settles :
    {A : Type 0} (o : Outcome World A) (e : String) (w : World)
    → WellFormed w.manager
    → o ≡ fail e w
    → Settles o
failed-Settles o e w wf f = (w.manager, rw f, wf)

module _ (h : Host) (name : String) (w : World) (wf : WellFormed w.manager) where
  pub start-Settles : Settles (start h name w)
  start-Settles = elim (Option-cases (Dict.lookup name w.manager.vms)) [
    | inl e ↦ failed-Settles _ _ w wf (start_missing name w wf.mu e h)
    | inr (v, e) ↦
        let f = free name v w wf e in
        elim (Bool-cases (is_running v.state)) [
          | inl r ↦ (w.manager, (start_running h name v w f r).0, wf)
          | inr r ↦ settles _ _ (start_idle h name v w f r).0 (
              port-WellFormed _ _ (
                with_entry-WellFormed name _ w.manager wf (
                  started_vm-IsSettled name v (wf.vms name v e) (opens h name v w)
                    (sets_up h name v w) (spawns h name v w))))
        ]
  ]

  pub stop-Settles : Settles (stop h name w)
  stop-Settles = elim (Option-cases (Dict.lookup name w.manager.vms)) [
    | inl e ↦ failed-Settles _ _ w wf (stop_missing name w wf.mu e h)
    | inr (v, e) ↦
        let f = free name v w wf e in
        elim (Bool-cases (is_running v.state)) [
          | inl r ↦ settles _ _ (stop_running h name v w f r) (
              with_entry-WellFormed name _ w.manager wf
                (stopped_vm-IsSettled name v (wf.vms name v e) (succeeded (stop h name w))))
          | inr r ↦ (w.manager, (stop_idle h name v w f r).0, wf)
        ]
  ]

  pub destroy-Settles :
      ((v : Vm) → Dict.lookup name w.manager.vms ≡ some v → is_running v.state ≡ false)
      → Settles (destroy h name w)
  destroy-Settles idle = elim (Option-cases (Dict.lookup name w.manager.vms)) [
    | inl e ↦ failed-Settles _ _ w wf (destroy_missing name w wf.mu e h)
    | inr (v, e) ↦
        let r = idle v e in
        settles _ _ (destroy_idle h name v w (free name v w wf e) r) (
          destroyed-WellFormed name v (wf.vms name v e) (succeeded (destroy h name w)) w.manager wf
            r)
  ]

  pub get_state-Settles : Settles (get_state h name w)
  get_state-Settles = elim (Option-cases (Dict.lookup name w.manager.vms)) [
    | inl e ↦ failed-Settles _ _ w wf (get_state_missing name w wf.mu e h)
    | inr (v, e) ↦ settles _ _ (get_state_lem h name v w (free name v w wf e)).0 (
        with_entry-WellFormed name _ w.manager wf (observed-IsSettled name v (wf.vms name v e) h w))
  ]

  pub create-Settles :
      (y : Yaml) (cpu : ℤ) (memory : String) → Settles (create h y name cpu memory w)
  create-Settles y cpu memory = elim (Bool-cases (known name w)) [
    | inl k ↦ failed-Settles _ _ w wf (create-known h y name w wf.mu cpu memory k)
    | inr k ↦ settles _ _ (create_new h y name w wf.mu cpu memory k) (
        pick (succeeded (create h y name cpu memory w)) (
          with_entry-WellFormed name _ w.manager wf
            (defined_vm-IsSettled name w.manager cpu memory)))
  ]
    where
      pick : (b : Bool) {m : Manager} → WellFormed m → WellFormed (if b then m else w.manager)
      pick true p = p
      pick false p = wf

abbrev pub forget : {A : Type 0} → Exec World A → Exec World (Unit {0})
forget m = do m; pure tt

forget-Settles : {A : Type 0} (m : Exec World A) (w : World) → Settles (m w) → Settles (forget m w)
forget-Settles m w (n, e, wf) = (n, ground arith, wf)

-- The request is to destroy a machine that runs.
abbrev pub DestroysRunning : Request → World → Type 0
DestroysRunning (destroy_vm name) w =
    (v : Vm) × (Dict.lookup name w.manager.vms ≡ some v) × (is_running v.state ≡ true)
DestroysRunning _ w = ⊥

pub destroys_running? : (r : Request) (w : World) → DestroysRunning r w ⊎ (¬ DestroysRunning r w)
destroys_running? (destroy_vm name) w = elim (Option-cases (Dict.lookup name w.manager.vms)) [
  | inl e ↦ inr (λ d. cc (d.1))
  | inr (v, e) ↦ elim (Bool-cases (is_running v.state)) [
    | inl r ↦ inl (v, e, r)
    | inr r ↦ inr (λ d.
        let same : d.0 ≡ v = some-injective _ _ (sym d.1 ∙ e) in
        cc (ap (λ (u : Vm). is_running u.state) same, d.2))
  ]
]
destroys_running? (create_vm _ _ _) w = inr (λ d. d)
destroys_running? (start_vm _) w = inr (λ d. d)
destroys_running? (stop_vm _) w = inr (λ d. d)
destroys_running? (vm_state _) w = inr (λ d. d)

settled_manager :
    {A : Type 0} (o : Outcome World A) (t : World)
    → Settles o
    → world_after o ≡ some t
    → WellFormed t.manager
settled_manager (done a u) t (m, e, wf) f = subst WellFormed (cc) wf
settled_manager (fail a u) t (m, e, wf) f = subst WellFormed (cc) wf
settled_manager deadlock t s f = cc

module _ (h : Host) (y : Yaml) where
  unfoldable pub perform : Request → Exec World (Unit {0})
  perform (create_vm name cpu memory) = create h y name cpu memory
  perform (start_vm name) = start h name
  perform (stop_vm name) = stop h name
  perform (destroy_vm name) = destroy h name
  perform (vm_state name) = forget (get_state h name)

  -- In a well-formed manager every request comes back, with a result or with an error, and leaves
  -- a well-formed manager, unless it is to destroy a machine that runs.
  pub perform-Settles :
      (r : Request) (w : World)
      → WellFormed w.manager
      → ¬ DestroysRunning r w
      → Settles (perform r w)
  unfolding perform
  perform-Settles (create_vm name cpu memory) w wf n = create-Settles h name w wf y cpu memory
  perform-Settles (start_vm name) w wf n = start-Settles h name w wf
  perform-Settles (stop_vm name) w wf n = stop-Settles h name w wf
  perform-Settles (destroy_vm name) w wf n =
      destroy-Settles h name w wf
        (λ v e. elim (Bool-cases (is_running v.state)) [ inl r ↦ absurd (n (v, e, r)) | inr r ↦ r ])
  perform-Settles (vm_state name) w wf n =
      forget-Settles (get_state h name) w (get_state-Settles h name w wf)

  -- A request to destroy a machine that runs never comes back: `Destroy` holds the mutex of the
  -- machine when `Stop` waits for it.
  pub perform-DestroysRunning :
      (r : Request) (w : World)
      → WellFormed w.manager
      → DestroysRunning r w
      → perform r w ≡ deadlock
  unfolding perform
  perform-DestroysRunning (destroy_vm name) w wf (v, e, r) =
      destroy_running h name v w (free name v w wf e) r
  perform-DestroysRunning (create_vm _ _ _) w wf d = absurd d
  perform-DestroysRunning (start_vm _) w wf d = absurd d
  perform-DestroysRunning (stop_vm _) w wf d = absurd d
  perform-DestroysRunning (vm_state _) w wf d = absurd d

  -- The states that the manager of a server goes through, request by request, once `Initialize` has
  -- loaded the machines.
  pub data Reach (cfg : Config) : World → Type 0 where
    init :
        (past : History) (t : World)
        → world_after (load_all_vms h y (record { manager = new_manager cfg; history = past }))
          ≡ some t
        → Reach cfg t
    next :
        {w : World} (r : Request) (t : World)
        → Reach cfg w
        → world_after (perform r w) ≡ some t
        → Reach cfg t

  -- Every manager that a server reaches from `LoadAllVMs` on, by any requests and any answers of the
  -- system, is well formed.
  pub Reach-WellFormed : {cfg : Config} {w : World} → Reach cfg w → WellFormed w.manager
  Reach-WellFormed {cfg} (init past t e) =
      let (n, f, l) = load_all_vms-Extends h y _ (new_manager-WellFormed cfg) in
      settled_manager _ t (n, f, l.well) e
  Reach-WellFormed (next {w} r t before e) =
      let wf = Reach-WellFormed before in
      elim (destroys_running? r w) [
        | inl d ↦ cc (perform-DestroysRunning r w wf d)
        | inr n ↦ settled_manager _ t (perform-Settles r w wf n) e
      ]
