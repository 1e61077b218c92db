-- ===== src/Vm/Loading/Startup.antt =====
-- What `LoadVM` and `LoadAllVMs` do to the machines.
use bhyve_mcp.Common.{
  Result-cases, String, ◌<>◌, ◌≡◌, refl, sym, subst, ◌∙◌, none, some, true, false, arith, fail,
  deadlock, Outcome, done, Exec, Bool-cases, Option-cases, inl, inr, List, [], ◌∷◌, eq_iff, ignore,
  ◌>>◌, ◌⊎◌,
}
use mathlib.Core.Option.{some-injective}
use bhyve_mcp.Common.Dict
use bhyve_mcp.Host.{Host, Entry, read_dir, Reply-cases}
use bhyve_mcp.Config.{VmConfig}
use bhyve_mcp.Config.File.{Yaml, load_vm_config}
use bhyve_mcp.Vm.Types.{Vm, World, Manager, defined, unlocked}
use bhyve_mcp.Vm.Lifecycle.{known, defined_vm, config_path}
use bhyve_mcp.Vm.Lifecycle.Access.{manager_after, with_entry}
use bhyve_mcp.Vm.Invariant.{WellFormed, with_entry-WellFormed}
use bhyve_mcp.Vm.Loading.{load_vm, load_entries, load_all_vms, vm_name}

-- The second manager has all machines of the first, as they were, and the others are defined and
-- have not been started.
pub record Loads (m n : Manager) : Type 0 where
  pub well : WellFormed n
  pub kept : (j : String) (v : Vm) → Dict.lookup j m.vms ≡ some v → Dict.lookup j n.vms ≡ some v
  pub fresh :
      (j : String) (v : Vm)
      → Dict.lookup j m.vms ≡ none
      → Dict.lookup j n.vms ≡ some v
      → v.state ≡ defined

Loads-refl : (m : Manager) → WellFormed m → Loads m m
Loads-refl m wf = record { well = wf; kept = λ j v e. e; fresh = λ j v e f. cc }

Loads-trans : (m n p : Manager) → Loads m n → Loads n p → Loads m p
Loads-trans m n p a b = record {
  well = b.well;
  kept = λ j v e. b.kept j v (a.kept j v e);
  fresh = λ j v e f. elim (Option-cases (Dict.lookup j n.vms)) [
    | inl g ↦ b.fresh j v g f
    | inr (u, g) ↦ a.fresh j v e (g ∙ sym (b.kept j u g) ∙ f)
  ];
}

Loads-with_entry :
    (name : String) (cfg : VmConfig) (m : Manager)
    → WellFormed m
    → Dict.lookup name m.vms ≡ none
    → Loads m (with_entry name (defined_vm name cfg) m)
Loads-with_entry name cfg m wf e = record {
  well = with_entry-WellFormed name _ m wf (ground arith);
  kept =
      λ j v f. ground (arith, Dict.lookup-insert j name (defined_vm name cfg) m.vms, eq_iff name j);
  fresh = λ j v f g.
      ground (arith, Dict.lookup-insert j name (defined_vm name cfg) m.vms, eq_iff name j);
}

-- The method comes back, with the machines of before and perhaps others.
abbrev pub Extends : {A : Type 0} → Manager → Outcome World A → Type 0
Extends m o = (n : Manager) × (manager_after o ≡ some n) × Loads m n

-- The state that a method has left, when its error is dropped.
ignored :
    (o : Outcome World (Unit {0})) (n : Manager)
    → manager_after o ≡ some n
    → (t : World) × (t.manager ≡ n)
      × ((m k : Exec World (Unit {0})) (w : World) → m w ≡ o → (ignore m >> k) w ≡ k t)
ignored (done a t) n e = (t, some-injective _ _ e, λ m k w f. ground arith)
ignored (fail a t) n e = (t, some-injective _ _ e, λ m k w f. ground arith)
ignored deadlock n e = cc

module _ (h : Host) (y : Yaml) where
  load_vm-known :
      (name : String) (w : World)
      → w.manager.mu ≡ unlocked
      → known name w ≡ true
      → load_vm h y name w ≡ fail ("VM already loaded: " <> name) w
  unfolding load_vm
  load_vm-known name w mu k = ground (arith, mu)

  load_vm_new :
      (name : String) (w : World)
      → w.manager.mu ≡ unlocked
      → known name w ≡ false
      → (manager_after (load_vm h y name w) ≡ some w.manager)
        ⊎ ((cfg : VmConfig) × (manager_after (load_vm h y name w)
              ≡ some (with_entry name (defined_vm name cfg) w.manager)))
  unfolding load_vm load_vm_config
  load_vm_new name w mu k = elim (Reply-cases (h.read_file w.history (config_path name w))) [
    | inr (f, e) ↦ inl (ground (arith, mu))
    | inl (text, e) ↦ elim (Result-cases (y.unmarshal_vm_config text)) [
      | inr (x, g) ↦ inl (ground (arith, mu))
      | inl (cfg, g) ↦ inr (cfg, ground (arith, mu))
    ]
  ]

  load_vm-Extends :
      (name : String) (w : World) → WellFormed w.manager → Extends w.manager (load_vm h y name w)
  load_vm-Extends name w wf = elim (Option-cases (Dict.lookup name w.manager.vms)) [
    | inr (v, e) ↦
        (w.manager, (rw (load_vm-known name w wf.mu (ground arith)) refl), Loads-refl w.manager wf)
    | inl e ↦ elim (load_vm_new name w wf.mu (ground arith)) [
      | inl f ↦ (w.manager, f, Loads-refl w.manager wf)
      | inr (cfg, f) ↦ (_, f, Loads-with_entry name cfg w.manager wf e)
    ]
  ]

  load_entries-Extends :
      (es : List Entry) (w : World)
      → WellFormed w.manager
      → Extends w.manager (load_entries h y es w)
  unfolding load_entries
  load_entries-Extends [] w wf = (w.manager, refl, Loads-refl w.manager wf)
  load_entries-Extends (e ∷ es) w wf = elim (Bool-cases e.is_dir) [
    | inl d ↦ let (n, f, l) = load_entries-Extends es w wf in (n, rw d f, l)
    | inr d ↦
        let (n, f, l) = load_vm-Extends (vm_name e.name) w wf in
        let (t, g, s) = ignored (load_vm h y (vm_name e.name) w) n f in
        let (p, q, r) = load_entries-Extends es t (subst WellFormed (sym g) l.well) in
        (
          p,
          rw d (rw (s (load_vm h y (vm_name e.name)) (load_entries h y es) w refl) q),
          Loads-trans w.manager n p l (subst (λ u. Loads u p) g r),
        )
  ]

  -- `LoadAllVMs` on a well-formed manager comes back and leaves a well-formed manager: every machine
  -- that was there is as before, and every other one is defined and has not been started.
  pub load_all_vms-Extends :
      (w : World) → WellFormed w.manager → Extends w.manager (load_all_vms h y w)
  unfolding load_all_vms
  load_all_vms-Extends w wf =
      let dir = w.manager.config.paths.vm_config_dir in
      elim (Reply-cases (h.read_dir w.history dir)) [
        | inl (es, e) ↦
            let (n, f, l) =
              load_entries-Extends es (record w { history = read_dir dir ∷ w.history }) wf in
            (n, rw e f, l)
        | inr (f, e) ↦ (w.manager, rw e (ground arith), Loads-refl w.manager wf)
      ]
