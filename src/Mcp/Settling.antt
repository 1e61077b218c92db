-- ===== src/Mcp/Settling.antt =====
-- Which calls of the managers come back, and what a handler makes of one that does.
pub mod MachineRequests
pub mod OtherRequests
use bhyve_mcp.Common.{
  Option, String, ◌≡◌, refl, sym, subst, some, true, arith, Exec, Outcome, done, fail, deadlock,
  Result, ok, err, pure, state_after, comes_back, ◌>>=◌,
}
use mathlib.Core.Option.{some-injective}
use bhyve_mcp.Host.{Host, History}
use bhyve_mcp.Disk
use bhyve_mcp.Disk.{Disks}
use bhyve_mcp.Disk.Listing
use bhyve_mcp.Net
use bhyve_mcp.Store.Records.{IsoRecord, RecordWorld}
use bhyve_mcp.Vm.Types.{World}
use bhyve_mcp.Vm.Invariant.{WellFormed, Settles}
use bhyve_mcp.Mcp.Types.{
  ServerWorld, on_machines, on_host, on_isos, iso_world, machine_world, decoded,
}

module _ (h : Host) (m : Disks) where
  pub create_disk-comes_back :
      (name size t : String) (past : History) → comes_back (Disk.create h m name size t past) ≡ true
  unfolding Disk.create
  create_disk-comes_back name size t past = ground arith

  pub delete_disk-comes_back :
      (name t : String) (past : History) → comes_back (Disk.delete h m name t past) ≡ true
  unfolding Disk.delete
  delete_disk-comes_back name t past = ground arith

  pub resize_disk-comes_back :
      (name size t : String) (past : History) → comes_back (Disk.resize h m name size t past) ≡ true
  unfolding Disk.resize
  resize_disk-comes_back name size t past = ground arith

  pub clone_disk-comes_back :
      (source dest t : String) (past : History)
      → comes_back (Disk.clone h m source dest t past) ≡ true
  unfolding Disk.clone
  clone_disk-comes_back source dest t past = ground arith

  pub list_disks-comes_back : (past : History) → comes_back (Listing.list h m past) ≡ true
  list_disks-comes_back past = let (a, t, e) = Listing.list-Returns h m past in rw e refl

module _ (h : Host) where
  pub create_switch-comes_back :
      (name iface : String) (past : History)
      → comes_back (Net.create_switch h name iface past) ≡ true
  unfolding Net.create_switch
  create_switch-comes_back name iface past = ground arith

-- A call of the server comes back, and leaves a well-formed manager of the machines.
abbrev pub ServerSettles : {V A : Type 0} → Outcome (ServerWorld V) A → Type 0
ServerSettles {V} o =
    (t : ServerWorld V) × (state_after o ≡ some t) × WellFormed t.server.vm_manager

module _ {V : Type 0} where
  after_machines :
      {A : Type 0} (o : Outcome World A) (w : ServerWorld V)
      → Settles o
      → ServerSettles (on_machines {V = V} (λ _. o) w)
  after_machines (done a u) w (m, e, wf) =
      (_, refl, subst WellFormed (sym (some-injective _ _ e)) wf)
  after_machines (fail x u) w (m, e, wf) =
      (_, refl, subst WellFormed (sym (some-injective _ _ e)) wf)
  after_machines deadlock w (m, e, wf) = cc

  pub on_machines-Settles :
      {A : Type 0} (m : Exec World A) (w : ServerWorld V)
      → Settles (m (machine_world w))
      → ServerSettles (on_machines m w)
  on_machines-Settles m w = after_machines (m (machine_world w)) w

  after_host :
      {A : Type 0} (o : Outcome History A) (w : ServerWorld V)
      → comes_back o ≡ true
      → WellFormed w.server.vm_manager
      → ServerSettles (on_host {V = V} (λ _. o) w)
  after_host (done a u) w c wf = (_, refl, wf)
  after_host (fail x u) w c wf = (_, refl, wf)
  after_host deadlock w c wf = cc

  pub on_host-Settles :
      {A : Type 0} (m : Exec History A) (w : ServerWorld V)
      → comes_back (m w.history) ≡ true
      → WellFormed w.server.vm_manager
      → ServerSettles (on_host m w)
  on_host-Settles m w = after_host (m w.history) w

  after_isos :
      {A : Type 0} (o : Outcome (RecordWorld V (Option IsoRecord)) A) (w : ServerWorld V)
      → comes_back o ≡ true
      → WellFormed w.server.vm_manager
      → ServerSettles (on_isos (λ _. o) w)
  after_isos (done a u) w c wf = (_, refl, wf)
  after_isos (fail x u) w c wf = (_, refl, wf)
  after_isos deadlock w c wf = cc

  pub on_isos-Settles :
      {A : Type 0} (m : Exec (RecordWorld V (Option IsoRecord)) A) (w : ServerWorld V)
      → comes_back (m (iso_world w)) ≡ true
      → WellFormed w.server.vm_manager
      → ServerSettles (on_isos m w)
  on_isos-Settles m w = after_isos (m (iso_world w)) w

  pub after_call :
      {A B : Type 0} (o : Outcome (ServerWorld V) A) (k : A → B) (w : ServerWorld V)
      → ServerSettles o
      → ServerSettles (((λ _. o) >>= λ b. pure (k b)) w)
  after_call (done a u) k w s = s
  after_call (fail x u) k w s = s
  after_call deadlock k w s = s

  -- A handler settles if its call does, for the parameters that are decoded.
  pub handler-Settles :
      {A B C : Type 0} (r : Result A) (call : A → Exec (ServerWorld V) B) (k : A → B → C)
      (w : ServerWorld V)
      → WellFormed w.server.vm_manager
      → ((p : A) → r ≡ ok p → ServerSettles (call p w))
      → ServerSettles ((decoded r >>= λ p. call p >>= λ b. pure (k p b)) w)
  handler-Settles (ok p) call k w wf s = after_call (call p w) (k p) w (s p refl)
  handler-Settles (err x) call k w wf s = (w, refl, wf)
