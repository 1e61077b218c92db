-- ===== src/Mcp/Present.antt =====
-- Servers with no nil map and no nil pointer to a record, and what keeps them so.
use bhyve_mcp.Common.{
  is_some, String, ◌≡◌, refl, sym, subst, Bool, true, false, Option, none, some, [], ◌∷◌, arith,
  Outcome, done, fail, deadlock, state_after, ◌⊎◌, inl, inr,
}
use mathlib.Core.Option.{some-injective}
use bhyve_mcp.Common.Dict
use bhyve_mcp.Common.Dict.{Dict}
use bhyve_mcp.Vm.Invariant.{WellFormed}
use bhyve_mcp.Store.{GoMap, entries, without}
use bhyve_mcp.Store.Records
use bhyve_mcp.Store.Records.{RecordStore, RecordWorld, IsoRecord}
use bhyve_mcp.Store.Records.Sharing.{world_after, delete-after}
use bhyve_mcp.Mcp.Types.{Env, Server, ServerWorld, on_isos, iso_world}
use bhyve_mcp.Mcp.StoreHandlers.{all_present, handle_delete_iso}
use bhyve_mcp.Mcp.Dispatch.{Method, handle}
use bhyve_mcp.Mcp.Keeping.{
  Leaves, Keeps, handler-Leaves, handle-Keeps, writes_isos, writes_machines,
}

abbrev pub has_records : {R : Type 0} → RecordStore (Option R) → Bool
has_records s = is_some (all_present (Records.list s))

-- Neither the state file nor a record in it was the document `null`, and no map of pointers has a nil
-- one.
pub record IsWhole {V : Type 0} (s : Server V) : Type 0 where
  pub values : is_some s.state_store.values ≡ true
  pub isos : has_records s.iso_store ≡ true
  pub templates : has_records s.template_store ≡ true

pub is_some-some : {A : Type 0} (o : Option A) → is_some o ≡ true → (a : A) × (o ≡ some a)
is_some-some none e = cc
is_some-some (some a) e = (a, refl)

erase-all_present :
    {R : Type 0} (name : String) (d : Dict (Option R))
    → is_some (all_present (Dict.values d)) ≡ true
    → is_some (all_present (Dict.values (Dict.erase name d))) ≡ true
unfolding all_present Dict.values Dict.erase
erase-all_present name [] e = refl
erase-all_present name ((k, none) ∷ d) e = cc
erase-all_present name ((k, some r) ∷ d) e = ground (arith, erase-all_present name d)

without-all_present :
    {R : Type 0} (name : String) (m : GoMap (Option R))
    → is_some (all_present (Dict.values (entries m))) ≡ true
    → is_some (all_present (Dict.values (entries (without name m)))) ≡ true
without-all_present name none e = e
without-all_present name (some d) e = erase-all_present name d e

iso_delete-writes : (m : Method) → (writes_isos m ≡ false) ⊎ (m ≡ Method.iso_delete)
iso_delete-writes Method.iso_delete = inr refl
iso_delete-writes Method.vm_create = inl refl
iso_delete-writes Method.vm_start = inl refl
iso_delete-writes Method.vm_stop = inl refl
iso_delete-writes Method.vm_destroy = inl refl
iso_delete-writes Method.vm_state = inl refl
iso_delete-writes Method.vm_list = inl refl
iso_delete-writes Method.vm_status = inl refl
iso_delete-writes Method.disk_create = inl refl
iso_delete-writes Method.disk_delete = inl refl
iso_delete-writes Method.disk_resize = inl refl
iso_delete-writes Method.disk_clone = inl refl
iso_delete-writes Method.disk_list = inl refl
iso_delete-writes Method.iso_list = inl refl
iso_delete-writes Method.template_list = inl refl
iso_delete-writes Method.switch_list = inl refl
iso_delete-writes Method.switch_create = inl refl
iso_delete-writes Method.switch_delete = inl refl
iso_delete-writes Method.host_info = inl refl
iso_delete-writes Method.unknown = inl refl

pub Leaves-after :
    {S A : Type 0} (P : S → Type 0) (o : Outcome S A) (t : S)
    → state_after o ≡ some t
    → Leaves P o
    → P t
Leaves-after P (done a u) t e l = subst P (some-injective _ _ e) l
Leaves-after P (fail x u) t e l = subst P (some-injective _ _ e) l
Leaves-after P deadlock t e l = cc

module _ {V : Type 0} (w : ServerWorld V) (whole : IsWhole w.server) where
  Keeps-IsWhole : (b : Bool) (t : ServerWorld V) → Keeps b false w t → IsWhole t.server
  Keeps-IsWhole b t k = record {
    values = rw k.state_store whole.values;
    isos = rw k.iso_store whole.isos;
    templates = rw k.template_store whole.templates;
  }

  kept-IsWhole :
      {A : Type 0} (b : Bool) (o : Outcome (ServerWorld V) A)
      → Leaves (Keeps b false w) o
      → Leaves (λ (t : ServerWorld V). IsWhole t.server) o
  kept-IsWhole b (done a t) k = Keeps-IsWhole b t k
  kept-IsWhole b (fail x t) k = Keeps-IsWhole b t k
  kept-IsWhole b deadlock k = tt

  deleted-IsWhole :
      {A : Type 0} (name : String) (o : Outcome (RecordWorld V (Option IsoRecord)) A)
      (u : RecordWorld V (Option IsoRecord))
      → world_after o ≡ some u
      → u.own.records ≡ without name w.server.iso_store.records
      → is_some u.under.store.values ≡ true
      → Leaves (λ (t : ServerWorld V). IsWhole t.server) (on_isos (λ _. o) w)
  unfolding Records.list
  deleted-IsWhole name (done a t) u e r v = record {
    values = rw (some-injective _ _ e) v;
    isos =
        rw (some-injective _ _ e, r)
          (without-all_present name w.server.iso_store.records whole.isos);
    templates = whole.templates;
  }
  deleted-IsWhole name (fail x t) u e r v = record {
    values = rw (some-injective _ _ e) v;
    isos =
        rw (some-injective _ _ e, r)
          (without-all_present name w.server.iso_store.records whole.isos);
    templates = whole.templates;
  }
  deleted-IsWhole name deadlock u e r v = tt

module _ {V P : Type 0} (e : Env V P) (w : ServerWorld V) (whole : IsWhole w.server) where
  delete-IsWhole :
      (name : String) (params : P)
      → Leaves (λ (t : ServerWorld V). IsWhole t.server) (handle e Method.iso_delete name params w)
  unfolding handle handle_delete_iso
  delete-IsWhole name params =
      handler-Leaves w (λ (t : ServerWorld V). IsWhole t.server) (e.decoder.vm_name params)
        (λ p. on_isos (Records.delete e.isos e.host e.json p.name)) _ whole
        (λ p.
          let (s, full) = is_some-some w.server.state_store.values whole.values in
          let (u, f, r, v) = delete-after e.isos e.host e.json p.name s (iso_world w) full in
          deleted-IsWhole w whole p.name (Records.delete e.isos e.host e.json p.name (iso_world w))
            u f r v)

  -- On well-formed machines, a request that comes back leaves no nil map and no nil pointer.
  pub handle-IsWhole :
      (m : Method) (name : String) (params : P)
      → WellFormed w.server.vm_manager
      → Leaves (λ (t : ServerWorld V). IsWhole t.server) (handle e m name params w)
  handle-IsWhole m name params wf = elim (iso_delete-writes m) [
    | inl f ↦ kept-IsWhole w whole (writes_machines m) (handle e m name params w) (
        subst (λ b. Leaves (Keeps (writes_machines m) b w) (handle e m name params w)) f
          (handle-Keeps e m name params w wf))
    | inr f ↦
        subst (λ x. Leaves (λ (t : ServerWorld V). IsWhole t.server) (handle e x name params w))
          (sym f) (delete-IsWhole name params)
  ]
