-- ===== src/Console/Rotation/Shifting.antt =====
-- What the loop of `rotateLog` does to a file system.
use bhyve_mcp.Common.{
  ℕ, zero, suc, ◌≤◌, ◌<◌, String, ◌<>◌, ◌=ₛ◌, ◌≡◌, ◌≢◌, refl, sym, ap, ◌∙◌, Option, none, some, [],
  ◌∷◌, arith, done, codes, eq_iff, eq_refl, Option-cases, inl, inr, if◌then◌else◌,
}
use mathlib.Core.Option.{some-injective}
use native.Mathlib.Decide.{dec_lt}
use text.Mathlib.TextLemmas.{append_cancel_left}
use bhyve_mcp.Host.{Host, History, Call, remove, rename, open_append, append_text}
use bhyve_mcp.Size.Digits.{value, value-show_ℕ}
use bhyve_mcp.Console.Rotation.{numbered, shift}

-- The contents of the files, by their paths.
abbrev pub Files : Type 0
Files = String → Option String

abbrev pub put : String → Option String → Files → Files
put p text f q = if p =ₛ q then text else f q

-- A rename of a file that is not there changes nothing.
abbrev pub moved_to : String → String → Option String → Files → Files
moved_to p q none f = f
moved_to p q (some text) f = put q (some text) (put p none f)

-- A file that is not there has nothing to keep when it is opened to append to it.
abbrev pub content : Option String → String
content none = ""
content (some text) = text

abbrev pub apply : Call → Files → Files
apply (remove p) f = put p none f
apply (open_append p) f = put p (some (content (f p))) f
apply (append_text p text) f = put p (some (content (f p) <> text)) f
apply (rename p q) f = moved_to p q (f p) f
apply _ f = f

-- The files after the calls, the newest of which stands first.
abbrev pub effect : History → Files → Files
effect [] f = f
effect (c ∷ past) f = apply c (effect past f)

pub numbered-injective : (base : String) (i j : ℕ) → numbered base i ≡ numbered base j → i ≡ j
numbered-injective base i j e =
    let tail = append_cancel_left "." _ _ (append_cancel_left base _ _ e) in
    some-injective _ _
      (sym (value-show_ℕ i).0 ∙ ap (λ s. value 0 (codes s)) tail ∙ (value-show_ℕ j).0)

-- Numbers 0 to `c - 1` have moved up by one, number 0 is free, and no other file has changed.
pub record Shifted (base : String) (c : ℕ) (f g : Files) : Type 0 where
  pub up : (i : ℕ) → i < c → g (numbered base (suc i)) ≡ f (numbered base i)
  pub free : g (numbered base 0) ≡ none
  pub others : (p : String) → ((j : ℕ) → j ≤ c → p ≢ numbered base j) → g p ≡ f p

pub shift-done :
    (h : Host) (base : String) (c : ℕ) (past : History)
    → (now : History) × (shift h base c past ≡ done tt now)
unfolding shift
shift-done h base zero past = (past, refl)
shift-done h base (suc c) past =
    shift-done h base c (rename (numbered base c) (numbered base (suc c)) ∷ past)

module _ (p q : String) (f : Files) (ne : p ≢ q) (free : f q ≡ none) where
  pub moved_to-source : moved_to p q (f p) f p ≡ none
  moved_to-source = elim (Option-cases (f p)) [
    | inl e ↦ rw e (ground (arith, e))
    | inr (t, e) ↦ ground (arith, e, eq_iff q p, eq_refl p, ne)
  ]

  pub moved_to-target : moved_to p q (f p) f q ≡ f p
  moved_to-target = elim (Option-cases (f p)) [
    | inl e ↦ ground (arith, e, free)
    | inr (t, e) ↦ ground (arith, e, eq_refl q)
  ]

  pub moved_to-other : (r : String) → r ≢ p → r ≢ q → moved_to p q (f p) f r ≡ f r
  moved_to-other r np nq = elim (Option-cases (f p)) [
    | inl e ↦ ground (arith, e)
    | inr (t, e) ↦ ground (arith, e, eq_iff q r, eq_iff p r, np, nq)
  ]

pub shift-Shifted :
    (h : Host) (base : String) (c : ℕ) (past : History) (f : Files)
    → effect past f (numbered base c) ≡ none
    → Shifted base c (effect past f) (effect (shift-done h base c past).0 f)
unfolding shift-done
shift-Shifted h base zero past f e = record {
  up = λ i h. absurd (omega (arith, h));
  free = e;
  others = λ p n. refl;
}
shift-Shifted h base (suc c) past f e =
    let p = numbered base c in
    let q = numbered base (suc c) in
    let g = effect past f in
    let ne : p ≢ q = λ x. absurd (omega (arith, numbered-injective base c (suc c) x)) in
    let s = shift-Shifted h base c (rename p q ∷ past) f (moved_to-source p q g ne e) in
    record {
      up = λ i l. elim (dec_lt i c) [
        | yes k ↦
            s.up i k
            ∙ moved_to-other p q g ne e (numbered base i)
                (λ x. absurd (omega (arith, k, numbered-injective base i c x)))
                (λ x. absurd (omega (arith, k, numbered-injective base i (suc c) x)))
        | no k ↦
            let same : i ≡ c = omega (arith, k, l) in
            rw same (
              s.others q (λ j m x. absurd (omega (arith, m, numbered-injective base (suc c) j x)))
              ∙ moved_to-target p q g ne e)
      ];
      free = s.free;
      others = λ r n.
          s.others r (λ j m. n j (omega (arith, m)))
          ∙ moved_to-other p q g ne e r (n c (omega arith)) (n (suc c) (omega arith));
    }
