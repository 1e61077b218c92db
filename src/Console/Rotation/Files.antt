-- ===== src/Console/Rotation/Files.antt =====
-- What `rotateLog` does to a file system.
use bhyve_mcp.Common.{
  is_some, ℕ, suc, ◌-◌, ◌≤◌, ◌<◌, pos, String, ◌<>◌, ◌≡◌, ◌≢◌, sym, ap, ◌∙◌, none, Bool, true,
  false, ◌∷◌, arith, done, show_ℕ, show_ℤ, eq_iff, eq_refl, Option-cases, inl, inr,
}
use Prim.Native.String.{count}
use text.Mathlib.TextLemmas.{length-append}
use bhyve_mcp.Host.{Host, History, Reply, good, bad, remove, rename, stat}
use bhyve_mcp.Console.Rotation.{numbered, there, set_aside, rotate_log}
use bhyve_mcp.Console.Rotation.Shifting.{
  Files, put, effect, numbered-injective, Shifted, shift-done, shift-Shifted, moved_to,
  moved_to-source, moved_to-target, moved_to-other,
}

abbrev pub carried_out : Reply (Unit {0}) → Bool
carried_out (good _) = true
carried_out (bad _) = false

-- The system answers as one does that had these files first and has carried out the calls: `Stat`
-- finds the files that are there, and a rename is carried out if its file is there.
pub record IsFileSystem (h : Host) (f : Files) : Type 0 where
  pub found : (past : History) (p : String) → there (h.stat past p) ≡ is_some (effect past f p)
  pub renamed :
      (past : History) (p q : String) → carried_out (h.rename past p q) ≡ is_some (effect past f p)

-- Every log of a number below `k` has moved up by one, the log itself is number 0, and no other file
-- has changed, but for number `k`, which is overwritten or removed.
pub record Rotated (base : String) (k : ℕ) (f g : Files) : Type 0 where
  pub up : (i : ℕ) → i < k → g (numbered base (suc i)) ≡ f (numbered base i)
  pub newest : g (numbered base 0) ≡ f base
  pub gone : g base ≡ none
  pub others : (p : String) → p ≢ base → ((j : ℕ) → j ≤ k → p ≢ numbered base j) → g p ≡ f p

numbered-ne : (base : String) (i : ℕ) → base ≢ numbered base i
numbered-ne base i e =
    omega (arith, ap count e ∙ length-append base ("." <> show_ℕ i), length-append "." (show_ℕ i))

module _ (base : String) (k : ℕ) (f g : Files)
    (s : Shifted base k (put (numbered base k) none f) g) where
  removed-other : (p : String) → p ≢ numbered base k → put (numbered base k) none f p ≡ f p
  removed-other p n = ground (arith, n, eq_iff (numbered base k) p)

  up-Shifted : (i : ℕ) → i < k → g (numbered base (suc i)) ≡ f (numbered base i)
  up-Shifted i l =
      s.up i l
      ∙ removed-other (numbered base i)
          (λ x. absurd (omega (arith, l, numbered-injective base i k x)))

  base-Shifted : g base ≡ f base
  base-Shifted = s.others base (λ j m. numbered-ne base j) ∙ removed-other base (numbered-ne base k)

  others-Shifted : (p : String) → ((j : ℕ) → j ≤ k → p ≢ numbered base j) → g p ≡ f p
  others-Shifted p n = s.others p n ∙ removed-other p (n k (omega arith))

  without_log : f base ≡ none → Rotated base k f g
  without_log e = record {
    up = up-Shifted;
    newest = s.free ∙ sym e;
    gone = base-Shifted ∙ e;
    others = λ p b n. others-Shifted p n;
  }

  with_log : Rotated base k f (moved_to base (numbered base 0) (g base) g)
  with_log =
      let ne = numbered-ne base 0 in
      record {
        up = λ i l.
            moved_to-other base (numbered base 0) g ne s.free (numbered base (suc i))
              (λ x. numbered-ne base (suc i) (sym x))
              (λ x. absurd (omega (arith, numbered-injective base (suc i) 0 x)))
            ∙ up-Shifted i l;
        newest = moved_to-target base (numbered base 0) g ne s.free ∙ base-Shifted;
        gone = moved_to-source base (numbered base 0) g ne s.free;
        others = λ p b n.
            moved_to-other base (numbered base 0) g ne s.free p b (n 0 (omega arith))
            ∙ others-Shifted p n;
      }

-- On a file system, rotation with room for `k + 1` rotated logs succeeds: the logs with a number
-- below `k` move up by one, the log becomes number 0, the oldest is dropped, and no other file
-- changes.
pub rotate_log-Rotated :
    (h : Host) (base : String) (k : ℕ) (past : History) (f : Files)
    → IsFileSystem h f
    → (now : History) × (rotate_log h base (pos (suc k)) past ≡ done tt now)
      × Rotated base k (effect past f) (effect now f)
unfolding rotate_log set_aside show_ℤ
rotate_log-Rotated h base k past f sys =
    let one : suc k - 1 ≡ k = omega arith in
    let (mid, e) = shift-done h base k (remove (numbered base k) ∷ past) in
    let s =
      shift-Shifted h base k (remove (numbered base k) ∷ past) f
        (ground (arith, eq_refl (numbered base k))) in
    let at = base-Shifted base k (effect past f) (effect mid f) s in
    elim (Option-cases (effect past f base)) [
      | inl n ↦ (
        stat base ∷ mid,
        rw one (ground (arith, e, sys.found mid base, at, n)),
        without_log base k (effect past f) (effect mid f) s n,
      )
      | inr (t, n) ↦ (
        rename base (numbered base 0) ∷ stat base ∷ mid,
        rw one (
            ground (
              arith,
              e,
              sys.found mid base,
              sys.renamed (stat base ∷ mid) base (numbered base 0),
              at,
              n,
            )),
        with_log base k (effect past f) (effect mid f) s,
      )
    ]
