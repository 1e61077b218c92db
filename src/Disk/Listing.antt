-- ===== src/Disk/Listing.antt =====
-- The methods `GetInfo` and `List`.
use bhyve_mcp.Common.{
  ℕ, String, ◌<>◌, ◌≡◌, ◌≢◌, refl, Bool, true, false, Option, none, some, List, [], ◌∷◌, ◌++◌,
  arith, Exec, pure, attempt, Result, ok, err, done, fail, deadlock, Outcome, ◌>>=◌, ◌>>◌, codes,
}
use bhyve_mcp.Common.Words.{split, fields, trim_space, after_prefix, before_suffix}
use bhyve_mcp.Host.{run, Host, History, Reply, Entry, good, bad, ask, need, stat, read_dir}
use bhyve_mcp.Size.{Parsed, number, refused, parse_size_u64}
use bhyve_mcp.Disk.{
  Disks, DiskKind, raw, qcow2, zvol, unsupported, disk_kind, DiskInfo, parse_size, unsupported_type,
  raw_path, qcow2_path, dataset, command,
}

-- `TrimPrefix`
abbrev trim_prefix : String → String → String
trim_prefix p s = elim (after_prefix p s) [ none ↦ s | some t ↦ t ]

-- A size that does not parse counts as 0.
abbrev size_or_zero : Parsed ℕ → ℕ
size_or_zero (number n) = n
size_or_zero (refused _) = 0

-- A line of `zfs list` with a name and a size.
abbrev volume_info : Disks → List String → List DiskInfo
volume_info m (name ∷ size ∷ _) =
    record {
      name = trim_prefix (m.zpool <> "/vm/") name;
      disk_type = "zvol";
      path = name;
      size = size_or_zero (parse_size_u64 (codes size));
    }
    ∷ []
volume_info m _ = []

volume_infos : Disks → List String → List DiskInfo
volume_infos m [] = []
volume_infos m (line ∷ lines) = volume_info m (fields line) ++ volume_infos m lines

-- The name of a disk file and its type, by the file's extension.
abbrev pub disk_file : String → Option (String × String)
disk_file file = elim (before_suffix ".raw" file) [
  | some name ↦ some (name, "raw")
  | none ↦ elim (before_suffix ".qcow2" file) [ some name ↦ some (name, "qcow2") | none ↦ none ]
]

abbrev append_found : {A : Type 0} → Result A → List A → List A
append_found (ok a) as' = a ∷ as'
append_found (err _) as' = as'

-- The call comes back with a value, not with an error.
abbrev pub Returns : {A : Type 0} → Outcome History A → Type 0
Returns {A} o = (a : A) × (past : History) × (o ≡ done a past)

attempt-Returns :
    {A : Type 0} (m : Exec History A) (past : History)
    → m past ≢ deadlock
    → Returns (attempt m past)
attempt-Returns {A} m past n = go (m past) n refl
  where
    go : (o : Outcome History A) → o ≢ deadlock → m past ≡ o → Returns (attempt m past)
    go (done a t) k e = (ok a, t, ground (arith, e))
    go (fail x t) k e = (err x, t, ground (arith, e))
    go deadlock k e = absurd (k refl)

bind-Returns :
    {A B : Type 0} (m : Exec History A) (f : A → Exec History B) (past : History)
    → Returns (m past)
    → ((a : A) (t : History) → Returns (f a t))
    → Returns ((m >>= f) past)
bind-Returns m f past (a, t, e) k = let (b, u, d) = k a t in (b, u, ground (arith, e, d))

module _ (h : Host) (m : Disks) where
  -- `getFileSize`
  get_file_size : String → Exec History ℕ
  get_file_size path = need (λ past. h.stat past path) (stat path)

  -- `getQCOW2Size` gives 0 when the command succeeds.
  get_qcow2_size : String → Exec History ℕ
  get_qcow2_size path = do command h ("qemu-img" ∷ "info" ∷ "--output=json" ∷ path ∷ []); pure 0

  get_zvol_size : String → Exec History ℕ
  unfolding parse_size
  get_zvol_size path = do
    output ← command h ("zfs" ∷ "get" ∷ "-H" ∷ "-o" ∷ "value" ∷ "volsize" ∷ path ∷ [])
    parse_size (trim_space output)

  sized : String → String → String → Exec History ℕ → Exec History DiskInfo
  sized name t path size = do
    n ← size
    pure (record { name = name; disk_type = t; path = path; size = n })

  info_kind : DiskKind → String → String → Exec History DiskInfo
  unfolding sized get_file_size get_qcow2_size get_zvol_size
  info_kind raw name t = sized name t (raw_path m name) (get_file_size (raw_path m name))
  info_kind qcow2 name t = sized name t (qcow2_path m name) (get_qcow2_size (qcow2_path m name))
  info_kind zvol name t = sized name t (dataset m name) (get_zvol_size (dataset m name))
  info_kind unsupported name t = unsupported_type t

  -- The method `GetInfo`, and `getInfo`, which is called only with the three types.
  unfoldable pub get_info : String → String → Exec History DiskInfo
  unfolding disk_kind info_kind
  get_info name t = info_kind (disk_kind t) name t

  file_info : Option (String × String) → Exec History (List DiskInfo)
  file_info none = pure []
  file_info (some (name, t)) = do info ← attempt (get_info name t); pure (append_found info [])

  -- A directory is passed over.
  entry_info : Bool → String → Exec History (List DiskInfo)
  unfolding file_info
  entry_info true file = pure []
  entry_info false file = file_info (disk_file file)

  -- The loop over the directory.
  file_infos : List Entry → Exec History (List DiskInfo)
  file_infos [] = pure []
  file_infos (e ∷ es) = do
    first ← entry_info e.is_dir e.name
    rest ← file_infos es
    pure (first ++ rest)

  abbrev volumes : Reply String → List DiskInfo
  volumes (bad _) = []
  volumes (good output) = volume_infos m (split 10 (trim_space output))

  abbrev listed : Reply (List Entry) → Exec History (List DiskInfo)
  listed (bad _) = pure []
  listed (good es) = file_infos es

  abbrev volume_list : List String
  volume_list =
      "zfs" ∷ "list" ∷ "-H" ∷ "-t" ∷ "volume" ∷ "-o" ∷ "name,volsize" ∷ (m.zpool <> "/vm") ∷ []

  -- The method `List`.
  unfoldable pub list : Exec History (List DiskInfo)
  unfolding file_infos entry_info volume_infos
  list = do
    entries ← ask (λ past. h.read_dir past m.disk_dir) (read_dir m.disk_dir)
    files ← listed entries
    output ← ask (λ past. h.run past volume_list) (run volume_list)
    pure (files ++ volumes output)

  get_info-comes_back : (name t : String) (past : History) → get_info name t past ≢ deadlock
  unfolding get_info
  get_info-comes_back name t past = ground arith

  file_info-Returns : (f : Option (String × String)) (past : History) → Returns (file_info f past)
  unfolding file_info
  file_info-Returns none past = ([], past, refl)
  file_info-Returns (some (name, t)) past =
      bind-Returns (attempt (get_info name t)) (λ info. pure (append_found info [])) past
        (attempt-Returns (get_info name t) past (get_info-comes_back name t past))
        (λ info u. (append_found info [], u, refl))

  entry_info-Returns :
      (b : Bool) (file : String) (past : History) → Returns (entry_info b file past)
  unfolding entry_info
  entry_info-Returns true file past = ([], past, refl)
  entry_info-Returns false file past = file_info-Returns (disk_file file) past

  file_infos-Returns : (es : List Entry) (past : History) → Returns (file_infos es past)
  unfolding file_infos
  file_infos-Returns [] past = ([], past, refl)
  file_infos-Returns (e ∷ es) past =
      bind-Returns (entry_info e.is_dir e.name) _ past (entry_info-Returns e.is_dir e.name past)
        (λ first t.
          bind-Returns (file_infos es) _ t (file_infos-Returns es t)
            (λ rest u. (first ++ rest, u, refl)))

  listed-Returns : (r : Reply (List Entry)) (past : History) → Returns (listed r past)
  listed-Returns (bad f) past = ([], past, refl)
  listed-Returns (good es) past = file_infos-Returns es past

  -- `List` comes back with a list of disks and no error, whatever the directory and the commands
  -- answer: what cannot be read is left out.
  pub list-Returns : (past : History) → Returns (list past)
  unfolding list
  list-Returns past =
      bind-Returns (listed (h.read_dir past m.disk_dir)) _ (read_dir m.disk_dir ∷ past)
        (listed-Returns (h.read_dir past m.disk_dir) (read_dir m.disk_dir ∷ past))
        (λ files t. (files ++ volumes (h.run t volume_list), _, refl))
