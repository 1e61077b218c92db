-- ===== src/Console/Sessions/Closing.antt =====
-- A console that is opened and closed again.
use bhyve_mcp.Common.{
  ℕ, String, ◌≡◌, refl, none, arith, done, ◌∷◌, Option-cases, inl, inr, eq_iff, eq_refl, ◌∙◌, sym,
  ◌=ₛ◌, Bool-cases,
}
use bhyve_mcp.Common.Dict
use bhyve_mcp.Host.{good, Reply-cases, open_file, close_file}
use bhyve_mcp.Console.Sessions.{Devices, ConsoleWorld, session, open_console, close_console}

module _ (d : Devices) (name device : String) (w u : ConsoleWorld) where
  -- An `Open` that has succeeded found no session under the name, and has put one there that has the
  -- file that it opened.
  pub open_console-success :
      open_console d name device w ≡ done tt u
      → (n : ℕ) × (d.open_file w.history device ≡ good n)
        × (session name w ≡ none)
        × (u ≡ record {
          manager = record (w.manager) {
            consoles =
                Dict.insert name
                  (record { vm_name = name; device = device; file = n })
                  w.manager.consoles;
          };
          history = open_file device ∷ w.history;
        })
  unfolding open_console
  open_console-success e = elim (Reply-cases (d.open_file w.history device)) [
    | inr (r, g) ↦ ground arith
    | inl (n, g) ↦ elim (Option-cases (session name w)) [
      | inr (s, f) ↦ ground arith
      | inl f ↦ (n, g, f, ground arith)
    ]
  ]

  -- A console that was opened can be closed, if the system closes its file: the file that is closed
  -- is the one that was opened, the two calls are the only ones, and every machine has the session
  -- that it had before.
  pub open_console-close_console :
      open_console d name device w ≡ done tt u
      → ((n : ℕ) → d.close_file u.history n ≡ good tt)
      → (n : ℕ) × (t : ConsoleWorld) × (d.open_file w.history device ≡ good n)
        × (close_console d name u ≡ done tt t)
        × (t.history ≡ close_file n ∷ open_file device ∷ w.history)
        × ((i : String) → session i t ≡ session i w)
  unfolding close_console
  open_console-close_console e closes =
      let (n, g, f, k) = open_console-success e in
      (
        n,
        record {
          manager = record (w.manager) {
            consoles = Dict.erase name (
                Dict.insert name (record { vm_name = name; device = device; file = n })
                  w.manager.consoles);
          };
          history = close_file n ∷ open_file device ∷ w.history;
        },
        g,
        ground (
          arith,
          k,
          closes n,
          Dict.lookup-insert_self name (record { vm_name = name; device = device; file = n })
              w.manager.consoles,
        ),
        refl,
        λ i. elim (Bool-cases (name =ₛ i)) [
          | inl t ↦
              rw (sym ((eq_iff name i).0 t))
                (Dict.lookup-erase name name _ ∙ rw (eq_refl name) (sym f))
          | inr t ↦
              Dict.lookup-erase i name _
              ∙ rw t (Dict.lookup-insert i name _ w.manager.consoles ∙ rw t refl)
        ],
      )
