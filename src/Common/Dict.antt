-- ===== src/Common/Dict.antt =====
-- A Go map with text keys, as an association list. Its order stands for the unspecified order in
-- which Go ranges over a map.
use mathlib.Core.Path.{◌≡◌, refl}
use mathlib.Core.Option.{Option, none, some}
use mathlib.Core.List.{List, [], ◌∷◌}
use Prim.Native.String.{String}
use native.Mathlib.Omega.{arith}
use bhyve_mcp.Common.Tests.{◌=ₛ◌, eq_iff, eq_refl, if◌then◌else◌}

abbrev pub Dict {ℓ} : Type ℓ → Type ℓ
Dict V = List (String × V)

module _ {ℓ} {V : Type ℓ} where
  unfoldable pub lookup : String → Dict V → Option V
  lookup k [] = none
  lookup k ((j, v) ∷ d) = if j =ₛ k then some v else lookup k d

  -- `d[k] = v`
  unfoldable pub insert : String → V → Dict V → Dict V
  insert k v [] = (k, v) ∷ []
  insert k v ((j, w) ∷ d) = if j =ₛ k then (k, v) ∷ d else (j, w) ∷ insert k v d

  -- `delete(d, k)`
  unfoldable pub erase : String → Dict V → Dict V
  erase k [] = []
  erase k ((j, w) ∷ d) = let rest = erase k d in if j =ₛ k then rest else (j, w) ∷ rest

  -- A change made to the value of `k` through its pointer.
  unfoldable pub modify : String → (V → V) → Dict V → Dict V
  modify k f [] = []
  modify k f ((j, w) ∷ d) = if j =ₛ k then (j, f w) ∷ d else (j, w) ∷ modify k f d

  unfoldable pub values : Dict V → List V
  values [] = []
  values ((j, v) ∷ d) = v ∷ values d

  pub lookup-insert :
      (j k : String) (v : V) (d : Dict V)
      → lookup j (insert k v d) ≡ (if k =ₛ j then some v else lookup j d)
  unfolding lookup insert
  lookup-insert j k v [] = refl
  lookup-insert j k v ((i, w) ∷ d) =
      ground (arith, eq_iff k j, eq_iff i k, eq_iff i j, lookup-insert j k v d)

  pub lookup-erase :
      (j k : String) (d : Dict V) → lookup j (erase k d) ≡ (if k =ₛ j then none else lookup j d)
  unfolding lookup erase
  lookup-erase j k [] = ground arith
  lookup-erase j k ((i, w) ∷ d) =
      ground (arith, eq_iff k j, eq_iff i k, eq_iff i j, lookup-erase j k d)

  abbrev pub map_some : (V → V) → Option V → Option V
  map_some f none = none
  map_some f (some v) = some (f v)

  pub lookup-modify :
      (j k : String) (f : V → V) (d : Dict V)
      → lookup j (modify k f d) ≡ (if k =ₛ j then map_some f (lookup j d) else lookup j d)
  unfolding lookup modify
  lookup-modify j k f [] = ground arith
  lookup-modify j k f ((i, w) ∷ d) =
      ground (arith, eq_iff k j, eq_iff i k, eq_iff i j, lookup-modify j k f d)

  pub modify-insert_self :
      (k : String) (f : V → V) (v : V) (d : Dict V) → modify k f (insert k v d) ≡ insert k (f v) d
  unfolding modify insert
  modify-insert_self k f v [] = ground (arith, eq_refl k)
  modify-insert_self k f v ((i, w) ∷ d) =
      ground (arith, eq_iff i k, eq_refl k, modify-insert_self k f v d)

  -- At a key that is there, a change is a write.
  pub modify_found :
      (k : String) (f : V → V) (v : V) (d : Dict V)
      → lookup k d ≡ some v
      → modify k f d ≡ insert k (f v) d
  unfolding lookup modify insert
  modify_found k f v [] h = cc
  modify_found k f v ((i, w) ∷ d) h = ground (arith, eq_iff i k, modify_found k f v d)

  pub lookup-insert_self : (k : String) (v : V) (d : Dict V) → lookup k (insert k v d) ≡ some v
  lookup-insert_self k v d = simp (lookup-insert, eq_refl)

  pub erase-insert_self : (k : String) (v : V) (d : Dict V) → erase k (insert k v d) ≡ erase k d
  unfolding erase insert
  erase-insert_self k v [] = ground (arith, eq_refl k)
  erase-insert_self k v ((i, w) ∷ d) =
      ground (arith, eq_iff i k, eq_refl k, erase-insert_self k v d)

  -- Writing the value that is there changes nothing.
  pub insert_found : (k : String) (v : V) (d : Dict V) → lookup k d ≡ some v → insert k v d ≡ d
  unfolding lookup insert
  insert_found k v [] h = cc
  insert_found k v ((i, w) ∷ d) h = ground (arith, eq_iff i k, insert_found k v d)

  pub insert-insert_self :
      (k : String) (v w : V) (d : Dict V) → insert k v (insert k w d) ≡ insert k v d
  unfolding insert
  insert-insert_self k v w [] = ground (arith, eq_refl k)
  insert-insert_self k v w ((i, x) ∷ d) =
      ground (arith, eq_iff i k, eq_refl k, insert-insert_self k v w d)

  -- A change through a pointer to an object that the map has lost does not reach the map.
  pub modify-erase : (k : String) (f : V → V) (d : Dict V) → modify k f (erase k d) ≡ erase k d
  unfolding modify erase
  modify-erase k f [] = refl
  modify-erase k f ((i, w) ∷ d) = ground (arith, eq_iff i k, modify-erase k f d)
