-- ===== src/Disk/Raw.antt =====
-- Raw images: the command that creates or resizes one.
use bhyve_mcp.Common.{
  ℕ, ◌*◌, ◌<◌, ◌^◌, String, ◌≡◌, Bool, some, List, [], ◌∷◌, arith, codes, show_ℕ, ◌=ₛ◌,
}
use bhyve_mcp.Host.{calls_after, Host, History, run}
use bhyve_mcp.Size.{number, u64, parse_size_u64}
use bhyve_mcp.Size.Units.{SizeUnit, multiplier, size_text, parse_size_u64-size_text}
use bhyve_mcp.Disk.{Disks, raw_path, create, resize}

-- `truncate -s BYTES PATH`
abbrev pub truncate : Disks → String → ℕ → List String
truncate m name bytes = "truncate" ∷ "-s" ∷ show_ℕ bytes ∷ raw_path m name ∷ []

module _ (h : Host) (m : Disks) (name size : String) (past : History) where
  -- On a size that is a number and a unit, the methods `Create` and `Resize` of a raw image run one
  -- command and no other: `truncate` with the number of bytes, modulo 2 ^ 64.
  pub truncate_calls :
      (low : Bool) (u : SizeUnit) (n : ℕ)
      → n < 2 ^ 64
      → codes size ≡ size_text low u n
      → let calls = run (truncate m name (u64 (n * multiplier u))) ∷ past in
        (calls_after (create h m name size "raw" past) ≡ some calls)
        × (calls_after (resize h m name size "raw" past) ≡ some calls)
  unfolding create resize ◌=ₛ◌
  truncate_calls low u n lt e =
      let parse : parse_size_u64 (codes size) ≡ number (u64 (n * multiplier u)) =
        rw e (parse_size_u64-size_text low u n lt) in
      ground (arith, parse)
