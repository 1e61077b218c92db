-- ===== src/Net/Switches.antt =====
-- The commands that creating and deleting a bridge run.
use bhyve_mcp.Common.{
  inl, inr, String, ◌≡◌, refl, Bool, false, some, List, [], ◌∷◌, arith, done, ◌=ₛ◌, if◌then◌else◌,
  ◌&&◌,
}
use bhyve_mcp.Common.Words.{split}
use bhyve_mcp.Host.{
  Reply-cases, Reply, good, bad, calls_after, replied, succeeds, Host, History, Call, run,
}
use bhyve_mcp.Net.{members, delete_switch, create_switch, remove_members}

abbrev pub call : List String → Call
call words = run ("ifconfig" ∷ words)

-- Whether the system carries a command out after the calls before it.
abbrev pub carries_out : Host → History → List String → Bool
carries_out h past words = replied (h.run past ("ifconfig" ∷ words))

module _ (h : Host) (name iface : String) (past : History) where
  abbrev created : History
  created = call (name ∷ "create" ∷ []) ∷ past

  abbrev added : History
  added = call (name ∷ "addm" ∷ iface ∷ []) ∷ created

  abbrev raised : History
  raised = call (iface ∷ "up" ∷ []) ∷ added

  -- A bridge with a physical interface: `CreateSwitch` runs create, addm, up for the interface and
  -- up for the bridge, and stops at the first of create, addm and the last that fails; after a failed
  -- addm it destroys the bridge. It reports success exactly when these three are carried out.
  pub create_switch-calls :
      (iface =ₛ "") ≡ false
      → let o = create_switch h name iface past in
        let creates = carries_out h past (name ∷ "create" ∷ []) in
        let adds = carries_out h created (name ∷ "addm" ∷ iface ∷ []) in
        (calls_after o
          ≡ some (
              if creates
              then (if adds
                  then call (name ∷ "up" ∷ []) ∷ raised
                  else call (name ∷ "destroy" ∷ []) ∷ added)
              else created))
        × (succeeds o ≡ (creates && (adds && carries_out h raised (name ∷ "up" ∷ []))))
  unfolding create_switch
  create_switch-calls given = ground arith

-- One deletem for each interface, in their order.
abbrev pub removals : String → List String → History → History
removals name [] past = past
removals name (i ∷ is) past = removals name is (call (name ∷ "deletem" ∷ i ∷ []) ∷ past)

remove_members-calls :
    (h : Host) (name : String) (ifaces : List String) (past : History)
    → remove_members h name ifaces past ≡ done tt (removals name ifaces past)
unfolding remove_members
remove_members-calls h name [] past = refl
remove_members-calls h name (i ∷ is) past =
    ground (arith, remove_members-calls h name is (call (name ∷ "deletem" ∷ i ∷ []) ∷ past))

-- The members that the system tells of before the bridge is taken apart.
abbrev pub told_members : Reply String → List String
told_members (good output) = members (split 10 output)
told_members (bad _) = []

-- `DeleteSwitch` asks for the bridge once, takes out every member that it is told of, in order and
-- whether or not that is carried out, and then destroys the bridge; it reports what the last
-- command reports.
pub delete_switch-calls :
    (h : Host) (name : String) (past : History)
    → let o = delete_switch h name past in
      let asked = call (name ∷ []) ∷ past in
      let emptied = removals name (told_members (h.run past ("ifconfig" ∷ name ∷ []))) asked in
      (calls_after o ≡ some (call (name ∷ "destroy" ∷ []) ∷ emptied))
      × (succeeds o ≡ carries_out h emptied (name ∷ "destroy" ∷ []))
unfolding delete_switch
delete_switch-calls h name past = elim (Reply-cases (h.run past ("ifconfig" ∷ name ∷ []))) [
  | inl (output, e) ↦
      ground (
        arith,
        e,
        remove_members-calls h name (members (split 10 output)) (call (name ∷ []) ∷ past),
      )
  | inr (f, e) ↦ ground (arith, e, remove_members-calls h name [] (call (name ∷ []) ∷ past))
]
