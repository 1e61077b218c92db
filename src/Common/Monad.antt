-- ===== src/Common/Monad.antt =====
-- Go code that changes a state `S` and returns an error. `deadlock` is a call that does not come back:
-- a wait on a mutex that the same goroutine holds, or a panic, which ends the process.
use Prim.Native.String.{String, ◌++◌ as ◌<>◌}
use mathlib.Core.Path.{◌≡◌, refl}
use mathlib.Core.Logic.{◌⊎◌, inl, inr}
use mathlib.Core.Bool.{Bool, true, false}
use mathlib.Core.Option.{Option, none, some}

pub data Outcome (S A : Type 0) : Type 0 where
  done : A → S → Outcome S A
  fail : String → S → Outcome S A
  deadlock : Outcome S A

pub data Result {ℓ} (A : Type ℓ) : Type ℓ where
  ok : A → Result A
  err : String → Result A

abbrev pub Exec : Type 0 → Type 0 → Type 0
Exec S A = S → Outcome S A

module _ {S A : Type 0} where
  abbrev pub pure : A → Exec S A
  pure a s = done a s

  -- `return fmt.Errorf(e)`
  abbrev pub throw : String → Exec S A
  throw e s = fail e s

  -- A nil map that is written, or a nil pointer that is followed.
  abbrev pub panic : Exec S A
  panic s = deadlock

  abbrev pub gets : (S → A) → Exec S A
  gets f s = done (f s) s

infixl 5 ◌>>=◌ ◌>>◌
abbrev pub ◌>>=◌ : {S A B : Type 0} → Exec S A → (A → Exec S B) → Exec S B
◌>>=◌ m f s = elim (m s) [ done a t ↦ f a t | fail e t ↦ fail e t | deadlock ↦ deadlock ]

abbrev pub ◌>>◌ : {S A B : Type 0} → Exec S A → Exec S B → Exec S B
m >> k = m >>= λ _. k

abbrev pub put : {S : Type 0} → (S → S) → Exec S (Unit {0})
put f s = done tt (f s)

abbrev pub throw_if : {S : Type 0} → Bool → String → Exec S (Unit {0})
throw_if true e s = fail e s
throw_if false e s = done tt s

-- `if err := m; err != nil { recover }`, where `recover` also sees the error.
abbrev pub catch : {S A : Type 0} → Exec S A → (String → Exec S A) → Exec S A
catch m h s = elim (m s) [ done a t ↦ done a t | fail e t ↦ h e t | deadlock ↦ deadlock ]

-- `fmt.Errorf("text: %w", err)`
abbrev pub context : {S A : Type 0} → String → Exec S A → Exec S A
context text m = catch m (λ e. throw (text <> ": " <> e))

-- A call whose error is dropped.
abbrev pub ignore : {S A : Type 0} → Exec S A → Exec S (Unit {0})
ignore m s = elim (m s) [ done a t ↦ done tt t | fail e t ↦ done tt t | deadlock ↦ deadlock ]

-- The result of a call, its error as a value.
abbrev pub attempt : {S A : Type 0} → Exec S A → Exec S (Result A)
attempt m s = elim (m s) [
  | done a t ↦ done (ok a) t
  | fail e t ↦ done (err e) t
  | deadlock ↦ deadlock
]

-- `defer release`: it runs after a return and after an error.
abbrev pub deferred : {S A : Type 0} → (S → S) → Exec S A → Exec S A
deferred release m s = elim (m s) [
  | done a t ↦ done a (release t)
  | fail e t ↦ fail e (release t)
  | deadlock ↦ deadlock
]

-- The result of a pure call as a step.
abbrev pub lift_result : {S A : Type 0} → Result A → Exec S A
lift_result (ok a) s = done a s
lift_result (err e) s = fail e s

-- The state when a call has come back, if it does.
abbrev pub state_after : {S A : Type 0} → Outcome S A → Option S
state_after (done _ s) = some s
state_after (fail _ s) = some s
state_after deadlock = none

abbrev pub comes_back : {S A : Type 0} → Outcome S A → Bool
comes_back deadlock = false
comes_back _ = true

-- A step on a part of the state.
abbrev pub zoom : {S T A : Type 0} → (S → T) → (T → S → S) → Exec T A → Exec S A
zoom part with_part m s = elim (m (part s)) [
  | done a t ↦ done a (with_part t s)
  | fail e t ↦ fail e (with_part t s)
  | deadlock ↦ deadlock
]

-- To split on a result and keep the equation.
pub Result-cases :
    {A : Type 0} (r : Result A) → ((a : A) × (r ≡ ok a)) ⊎ ((e : String) × (r ≡ err e))
Result-cases (ok a) = inl (a, refl)
Result-cases (err e) = inr (e, refl)

then-comes_back :
    {S A B : Type 0} (o : Outcome S A) (f : A → Exec S B) (s : S)
    → comes_back o ≡ true
    → ((a : A) (t : S) → comes_back (f a t) ≡ true)
    → comes_back (((λ _. o) >>= f) s) ≡ true
then-comes_back (done a t) f s h k = k a t
then-comes_back (fail e t) f s h k = refl
then-comes_back deadlock f s h k = h

pub bind-comes_back :
    {S A B : Type 0} (m : Exec S A) (f : A → Exec S B) (s : S)
    → comes_back (m s) ≡ true
    → ((a : A) (t : S) → comes_back (f a t) ≡ true)
    → comes_back ((m >>= f) s) ≡ true
bind-comes_back m f s = then-comes_back (m s) f s

pub state_after-comes_back :
    {S A : Type 0} (o : Outcome S A) (t : S) → state_after o ≡ some t → comes_back o ≡ true
state_after-comes_back (done a u) t h = refl
state_after-comes_back (fail e u) t h = refl
state_after-comes_back deadlock t h = cc

-- The call comes back, and its value, if it has one, satisfies the predicate.
abbrev pub Yields : {S A : Type 0} → (A → Type 0) → Outcome S A → Type 0
Yields P (done a s) = P a
Yields P (fail e s) = Unit {0}
Yields P deadlock = ⊥

then-Yields :
    {S A B : Type 0} (P : A → Type 0) (Q : B → Type 0) (o : Outcome S A) (f : A → Exec S B) (s : S)
    → Yields P o
    → ((a : A) (t : S) → P a → Yields Q (f a t))
    → Yields Q (((λ _. o) >>= f) s)
then-Yields P Q (done a t) f s h k = k a t h
then-Yields P Q (fail e t) f s h k = tt
then-Yields P Q deadlock f s h k = h

pub bind-Yields :
    {S A B : Type 0} (P : A → Type 0) (Q : B → Type 0) (m : Exec S A) (f : A → Exec S B) (s : S)
    → Yields P (m s)
    → ((a : A) (t : S) → P a → Yields Q (f a t))
    → Yields Q ((m >>= f) s)
bind-Yields P Q m f s = then-Yields P Q (m s) f s

pub comes_back-Yields :
    {S A : Type 0} (o : Outcome S A) → comes_back o ≡ true → Yields (λ _. Unit {0}) o
comes_back-Yields (done a s) h = tt
comes_back-Yields (fail e s) h = tt
comes_back-Yields deadlock h = cc
