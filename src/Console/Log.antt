-- ===== src/Console/Log.antt =====
-- Which lines of a log `ReadLog` gives.
use bhyve_mcp.Common.{
  ℕ, suc, ◌-◌, ◌≤◌, pos, ◌≡◌, refl, List, [], ◌∷◌, ◌++◌, length, drop, length-append, arith,
  Bool-cases, inl, inr, ltb, sym, ◌∙◌, String, none, done,
}
use bhyve_mcp.Host.{History, good, open_file, read_all}
use bhyve_mcp.Console.{keep_last, LogFiles, get_log_path, read_log, scanned}

abbrev pub last : {A : Type 0} → ℕ → List A → List A
last n xs = drop (length xs - n) xs

append_nil : {A : Type 0} (xs : List A) → xs ++ [] ≡ xs
append_nil [] = refl
append_nil (x ∷ xs) = ground (arith, append_nil xs)

append_assoc : {A : Type 0} (xs ys zs : List A) → (xs ++ ys) ++ zs ≡ xs ++ (ys ++ zs)
append_assoc [] ys zs = refl
append_assoc (x ∷ xs) ys zs = ground (arith, append_assoc xs ys zs)

last_short : {A : Type 0} (n : ℕ) (xs : List A) → length xs ≤ n → last n xs ≡ xs
last_short n xs h = let e : length xs - n ≡ 0 = omega (arith, h) in rw e refl

last-cons : {A : Type 0} (n : ℕ) (y : A) (zs : List A) → n ≤ length zs → last n zs ≡ last n (y ∷ zs)
last-cons n y zs h =
    let e : suc (length zs) - n ≡ suc (length zs - n) = omega (arith, h) in rw e refl

keep_last-last :
    {A : Type 0} (n : ℕ) (result xs : List A)
    → length result ≤ n
    → keep_last (pos n) result xs ≡ last n (result ++ xs)
unfolding keep_last
keep_last-last n result [] h = rw (append_nil result) (sym (last_short n result h))
keep_last-last n [] (x ∷ xs) h = elim (Bool-cases (ltb n 1)) [
  | inl t ↦ rw t (keep_last-last n [] xs h ∙ last-cons n x xs (ground (arith, h)))
  | inr t ↦ rw t (keep_last-last n (x ∷ []) xs (ground (arith, h)))
]
keep_last-last n (y ∷ result) (x ∷ xs) h =
    let k = length-append result (x ∷ []) in
    elim (Bool-cases (ltb n (suc (length (result ++ (x ∷ [])))))) [
      | inl t ↦ rw t (
          keep_last-last n (result ++ (x ∷ [])) xs (ground (arith, h, k))
          ∙ (rw (append_assoc result (x ∷ []) xs) (
              last-cons n y (result ++ (x ∷ xs))
                (ground (arith, h, length-append result (x ∷ xs))))))
      | inr t ↦ rw t (
          keep_last-last n (y ∷ (result ++ (x ∷ []))) xs (ground (arith, h, k))
          ∙ (rw (append_assoc result (x ∷ []) xs) refl))
    ]

-- `ReadLog` of a log that opens and is read to its end gives the last `n` lines, or all if there are
-- no more, in their order, for an `n` that is not negative.
pub read_log-last :
    (f : LogFiles) (log_dir name : String) (n : ℕ) (past : History)
    → let path = get_log_path log_dir name in
      let scan = f.scan (open_file path ∷ past) path in
      f.open_file past path ≡ good tt
      → scan.problem ≡ none
      → read_log f log_dir name (pos n) past
        ≡ done (last n scan.lines) (read_all path ∷ open_file path ∷ past)
unfolding read_log scanned
read_log-last f log_dir name n past e p =
    let path = get_log_path log_dir name in
    ground (arith, keep_last-last n [] (f.scan (open_file path ∷ past) path).lines)
