-- ===== src/Net/Listing.antt =====
-- `ListSwitches` and `DeleteSwitch` come back.
use bhyve_mcp.Common.{
  String, ◌≡◌, refl, true, List, [], ◌∷◌, ◌++◌, arith, comes_back, bind-comes_back, attempt, pure,
  Outcome, done, fail, deadlock, some,
}
use bhyve_mcp.Common.Words.{fields}
use bhyve_mcp.Host.{Host, History, Reply, good, bad, run, calls_after}
use bhyve_mcp.Net.{get_switch, switch_infos, list_switches, delete_switch, found, listed}
use bhyve_mcp.Net.Switches.{delete_switch-calls}

calls_after-comes_back :
    {A : Type 0} (o : Outcome History A) (past : History)
    → calls_after o ≡ some past
    → comes_back o ≡ true
calls_after-comes_back (done a t) past e = refl
calls_after-comes_back (fail x t) past e = refl
calls_after-comes_back deadlock past e = cc

module _ (h : Host) where
  pub delete_switch-comes_back :
      (name : String) (past : History) → comes_back (delete_switch h name past) ≡ true
  delete_switch-comes_back name past =
      calls_after-comes_back _ _ (delete_switch-calls h name past).0

  info-comes_back :
      (name : String) (past : History) → comes_back (attempt (get_switch h name) past) ≡ true
  unfolding get_switch
  info-comes_back name past = ground arith

  switch_infos-comes_back :
      (names : List String) (past : History) → comes_back (switch_infos h names past) ≡ true
  unfolding switch_infos
  switch_infos-comes_back [] past = refl
  switch_infos-comes_back (name ∷ names) past =
      bind-comes_back (attempt (get_switch h name)) _ past (info-comes_back name past) (λ info t.
        bind-comes_back (switch_infos h names) (λ rest. pure (found info ++ rest)) t
          (switch_infos-comes_back names t) (λ rest u. refl))

  listed-comes_back : (r : Reply String) (past : History) → comes_back (listed h r past) ≡ true
  listed-comes_back (bad f) past = refl
  listed-comes_back (good output) past = switch_infos-comes_back (fields output) past

  pub list_switches-comes_back : (past : History) → comes_back (list_switches h past) ≡ true
  unfolding list_switches
  list_switches-comes_back past =
      let words = "ifconfig" ∷ "-a" ∷ "-g" ∷ "bridge" ∷ [] in
      listed-comes_back (h.run past words) (run words ∷ past)
