-- ===== src/Vm/Loading/Reloading.antt =====
-- A machine that is created, and loaded by a later process.
use bhyve_mcp.Common.{
  ◌∷◌, ℤ, String, ap, ◌≡◌, refl, ◌∙◌, some, false, ok, arith, done, Result-cases, inl, inr,
}
use bhyve_mcp.Common.Dict
use bhyve_mcp.Common.FilePath
use bhyve_mcp.Host.{Host, History, Reply-cases, good, write_file, read_file, mkdir_all, vm_create}
use bhyve_mcp.Config.{VmConfig}
use bhyve_mcp.Config.File.{Yaml, save_vm_config, load_vm_config}
use bhyve_mcp.Vmmapi
use bhyve_mcp.Vm.Types.{Vm, World, unlocked}
use bhyve_mcp.Vm.Lifecycle.{create, known, new_vm_config, defined_vm, config_path}
use bhyve_mcp.Vm.Lifecycle.Access.{with_entry}
use bhyve_mcp.Vm.Loading.{load_vm}

-- A file that was written is read as it was written, also after the kernel object is made.
abbrev pub KeepsConfigs : Host → Type 0
KeepsConfigs h =
    (past : History) (p text name : String)
    → h.write_file past p text ≡ good tt
    → h.read_file (vm_create name ∷ write_file p text ∷ past) p ≡ good text

-- The YAML text of the configuration is read as the configuration.
abbrev pub ReadsConfig : Yaml → VmConfig → Type 0
ReadsConfig y cfg =
    (text : String) → y.marshal_vm_config cfg ≡ ok text → y.unmarshal_vm_config text ≡ ok cfg

module _ (h : Host) (y : Yaml) where
  -- A `Create` that has succeeded has written a text of the configuration, and its last two calls
  -- are that and the making of the kernel object.
  create-success :
      (name : String) (cpu : ℤ) (memory : String) (w u : World)
      → create h y name cpu memory w ≡ done tt u
      → let cfg = new_vm_config w.manager name cpu memory in
        let path = config_path name w in
        (text : String) × (y.marshal_vm_config cfg ≡ ok text)
        × (h.write_file (mkdir_all (FilePath.dir path) ∷ w.history) path text ≡ good tt)
        × (u.history
            ≡ vm_create name ∷ write_file path text ∷ mkdir_all (FilePath.dir path) ∷ w.history)
        × (Dict.lookup name u.manager.vms ≡ some (defined_vm name cfg))
  unfolding create Vmmapi.create save_vm_config
  create-success name cpu memory w u e =
      let cfg = new_vm_config w.manager name cpu memory in
      let path = config_path name w in
      let self = Dict.lookup-insert_self name (defined_vm name cfg) w.manager.vms in
      elim (Result-cases (y.marshal_vm_config cfg)) [
        | inr (x, f) ↦ ground arith
        | inl (text, f) ↦
            elim (Reply-cases
              (h.write_file (mkdir_all (FilePath.dir path) ∷ w.history) path text)) [
                | inr (x, g) ↦ ground arith
                | inl (tt, g) ↦ (text, f, g, ground arith, ground (arith, self))
              ]
      ]

  -- For files that keep what is written, and a configuration whose text reads back: what `Create`
  -- has made is what `LoadVM` of a later process makes, if the calls in between have left the text of
  -- the configuration's file, the process keeps its configurations in the same directory, holds no
  -- lock and has no machine of that name; nothing else of its manager changes.
  pub create-load_vm :
      (name : String) (cpu : ℤ) (memory : String) (w u v : World)
      → KeepsConfigs h
      → ReadsConfig y (new_vm_config w.manager name cpu memory)
      → create h y name cpu memory w ≡ done tt u
      → h.read_file v.history (config_path name w) ≡ h.read_file u.history (config_path name w)
      → v.manager.mu ≡ unlocked
      → config_path name v ≡ config_path name w
      → known name v ≡ false
      → (m : Vm) × (t : World) × (Dict.lookup name u.manager.vms ≡ some m)
        × (load_vm h y name v ≡ done tt t)
        × (t.manager ≡ with_entry name m v.manager)
  unfolding load_vm load_vm_config
  create-load_vm name cpu memory w u v keeps back e past mu at new =
      let cfg = new_vm_config w.manager name cpu memory in
      let path = config_path name w in
      let (text, f, g, c, l) = create-success name cpu memory w u e in
      let r = keeps (mkdir_all (FilePath.dir path) ∷ w.history) path text name g in
      let b = back text f in
      let read : h.read_file v.history (config_path name v) ≡ good text =
        rw at (past ∙ ap (λ z. h.read_file z path) c ∙ r) in
      (
        defined_vm name cfg,
        record {
          manager = with_entry name (defined_vm name cfg) v.manager;
          history = read_file path ∷ v.history;
        },
        l,
        ground (arith, read, b, at, mu),
        refl,
      )
