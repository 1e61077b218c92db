-- ===== src/Mcp/Running/Initializing.antt =====
-- `Initialize` comes back, with well-formed machines if it succeeds.
use bhyve_mcp.Common.{
  Option, String, ◌≡◌, sym, subst, true, some, arith, Outcome, done, fail, deadlock, context,
  comes_back, Yields, bind-Yields, comes_back-Yields,
}
use mathlib.Core.Option.{some-injective}
use bhyve_mcp.Host.{Host, History}
use bhyve_mcp.Config.{default_config}
use bhyve_mcp.Store.{Store, Json, new_store}
use bhyve_mcp.Store.Records.{Codec, IsoRecord, TemplateRecord, new_iso_store, new_template_store}
use bhyve_mcp.Vm.Types.{World, Manager, new_manager}
use bhyve_mcp.Vm.Loading.{load_all_vms}
use bhyve_mcp.Vm.Loading.Startup.{load_all_vms-Extends}
use bhyve_mcp.Vm.Lifecycle.Access.{manager_after}
use bhyve_mcp.Vm.Invariant.{WellFormed, new_manager-WellFormed}
use bhyve_mcp.Mcp.Types.{Env, Server}
use bhyve_mcp.Mcp.Running.{initialize, loaded, stored}

new_store-comes_back :
    (h : Host) {V : Type 0} (j : Json V) (text dir : String) (past : History)
    → comes_back (context text (new_store h j dir) past) ≡ true
unfolding new_store
new_store-comes_back h j text dir past = ground arith

loaded-Yields :
    (o : Outcome World (Unit {0})) (m : Manager)
    → manager_after o ≡ some m
    → WellFormed m
    → Yields WellFormed (loaded o)
unfolding loaded
loaded-Yields (done a w) m e wf = subst WellFormed (sym (some-injective _ _ e)) wf
loaded-Yields (fail a w) m e wf = subst WellFormed (sym (some-injective _ _ e)) wf
loaded-Yields deadlock m e wf = cc

module _ (h : Host) {V : Type 0} (s : Store V) (text dir : String) (past : History) where
  iso_store-comes_back :
      (c : Codec V (Option IsoRecord))
      → comes_back (context text (stored (new_iso_store c h dir) s) past) ≡ true
  unfolding new_iso_store
  iso_store-comes_back c = ground arith

  template_store-comes_back :
      (c : Codec V (Option TemplateRecord))
      → comes_back (context text (stored (new_template_store c h dir) s) past) ≡ true
  unfolding new_template_store
  template_store-comes_back c = ground arith

module _ {V P : Type 0} (e : Env V P) where
  pub initialize-WellFormed :
      (past : History) → Yields (λ (s : Server V). WellFormed s.vm_manager) (initialize e past)
  unfolding initialize
  initialize-WellFormed past =
      let c = default_config in
      bind-Yields (λ _. Unit {0}) _
        (context "failed to initialize state store" (new_store e.host e.json c.paths.state_dir)) _
        past (comes_back-Yields _ (new_store-comes_back e.host e.json _ c.paths.state_dir past))
        (λ store t _.
          bind-Yields WellFormed _
            (λ u.
              loaded (load_all_vms e.host e.yaml (record { manager = new_manager c; history = u })))
            _ t
            (let (n, f, l) =
                load_all_vms-Extends e.host e.yaml (record { manager = new_manager c; history = t })
                  (new_manager-WellFormed c) in
              loaded-Yields _ n f l.well)
            (λ machines u wf.
              bind-Yields (λ _. Unit {0}) _
                (context "failed to initialize ISO store"
                  (stored (new_iso_store e.isos e.host c.paths.iso_dir) store))
                _ u
                (comes_back-Yields _ (iso_store-comes_back e.host store _ c.paths.iso_dir u e.isos))
                (λ isos v _.
                  bind-Yields (λ _. Unit {0}) _
                    (context "failed to initialize template store"
                      (stored (new_template_store e.templates e.host c.paths.template_dir) isos.1))
                    _ v
                    (comes_back-Yields _ (
                      template_store-comes_back e.host isos.1 _ c.paths.template_dir v e.templates))
                    (λ templates x _. wf))))
