-- ===== src/Prelude/Dict.antt =====
-- Maps with string keys as association lists.
use Prim.Native.Nat.{suc}
use mathlib.Core.Path.{◌≡◌, refl}
use mathlib.Core.Bool.{Bool, true, false}
use mathlib.Core.Option.{Option, none, some}
use mathlib.Core.List.{List, [], ◌∷◌}
use native.Mathlib.Omega.{arith}
use monster_db.Prelude.Tests.{if◌then◌else◌}
use monster_db.Prelude.Lists.{length}
use monster_db.Prelude.Bytes.{Bytes, eqb, eqb_refl, eqb_iff}

abbrev pub Dict {ℓ} : Type ℓ → Type ℓ
Dict V = List (Bytes × V)

abbrev pub is_some {ℓ} : {A : Type ℓ} → Option A → Bool
is_some none = false
is_some (some a) = true

module _ {ℓ} {V : Type ℓ} where
  unfoldable pub lookup : Bytes → Dict V → Option V
  lookup k [] = none
  lookup k ((j, v) ∷ d) = if eqb j k then some v else lookup k d

  unfoldable pub insert : Bytes → V → Dict V → Dict V
  insert k v [] = (k, v) ∷ []
  insert k v ((j, w) ∷ d) = if eqb j k then (j, v) ∷ d else (j, w) ∷ insert k v d

  unfoldable pub erase : Bytes → Dict V → Dict V
  erase k [] = []
  erase k ((j, w) ∷ d) = let rest = erase k d in if eqb j k then rest else (j, w) ∷ rest

  pub lookup-insert :
      (k j : Bytes) (v : V) (d : Dict V)
      → lookup j (insert k v d) ≡ (if eqb k j then some v else lookup j d)
  unfolding lookup insert
  lookup-insert k j v [] = refl
  lookup-insert k j v ((i, w) ∷ d) =
      ground (arith, lookup-insert k j v d, eqb_iff i k, eqb_iff i j, eqb_iff k j)

  pub lookup-erase :
      (k j : Bytes) (d : Dict V) → lookup j (erase k d) ≡ (if eqb k j then none else lookup j d)
  unfolding lookup erase
  lookup-erase k j [] = ground arith
  lookup-erase k j ((i, w) ∷ d) =
      ground (arith, lookup-erase k j d, eqb_iff i k, eqb_iff i j, eqb_iff k j)

  pub lookup-insert_self : (k : Bytes) (v : V) (d : Dict V) → lookup k (insert k v d) ≡ some v
  lookup-insert_self k v d = rw (lookup-insert k k v d, eqb_refl k)

  pub lookup-erase_self : (k : Bytes) (d : Dict V) → lookup k (erase k d) ≡ none
  lookup-erase_self k d = rw (lookup-erase k k d, eqb_refl k)

  -- A new key adds one entry, and a key that is there none.
  pub length-insert :
      (k : Bytes) (v : V) (d : Dict V)
      → length (insert k v d) ≡ (if is_some (lookup k d) then length d else suc (length d))
  unfolding lookup insert
  length-insert k v [] = refl
  length-insert k v ((j, w) ∷ d) = ground (arith, length-insert k v d)

  -- Every key stands once.
  abbrev pub IsUnique : Dict V → Type ℓ
  IsUnique [] = Unit
  IsUnique ((k, v) ∷ d) = (lookup k d ≡ none) × IsUnique d

  pub insert-IsUnique : (k : Bytes) (v : V) (d : Dict V) → IsUnique d → IsUnique (insert k v d)
  unfolding insert lookup
  insert-IsUnique k v [] u = (refl, tt)
  insert-IsUnique k v ((j, w) ∷ d) u =
      ground (arith, insert-IsUnique k v d u.1, lookup-insert k j v d, eqb_iff j k, eqb_iff k j)

  pub erase-IsUnique : (k : Bytes) (d : Dict V) → IsUnique d → IsUnique (erase k d)
  unfolding erase
  erase-IsUnique k [] u = tt
  erase-IsUnique k ((j, w) ∷ d) u =
      ground (arith, erase-IsUnique k d u.1, lookup-erase k j d, eqb_iff k j)

  erase_absent : (k : Bytes) (d : Dict V) → lookup k d ≡ none → length (erase k d) ≡ length d
  unfolding lookup erase
  erase_absent k [] h = refl
  erase_absent k ((j, w) ∷ d) h = ground (arith, erase_absent k d)

  -- A key that is there takes one entry away.
  pub length-erase :
      (k : Bytes) (d : Dict V)
      → IsUnique d
      → length d ≡ (if is_some (lookup k d) then suc (length (erase k d)) else length (erase k d))
  unfolding lookup erase
  length-erase k [] u = refl
  length-erase k ((j, w) ∷ d) u =
      ground (arith, length-erase k d u.1, erase_absent k d, eqb_iff j k)
