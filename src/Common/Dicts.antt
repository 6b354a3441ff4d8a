-- ===== src/Common/Dicts.antt =====
-- A Python dict with text keys: an association list in insertion order, oldest first, each key at
-- most once. Writing a key that is present keeps its place.
use Prim.Native.String.{String}
use Prim.Native.Nat.{◌+◌}
use mathlib.Core.Path.{◌≡◌, refl}
use mathlib.Core.Logic.{◌≢◌}
use mathlib.Core.Option.{Option, none, some}
use mathlib.Core.List.{List, [], ◌∷◌, ◌++◌}
use native.Mathlib.Omega.{arith}
use haojie.Common.Tests.{if◌then◌else◌}
use haojie.Common.Keys.{str_eq, str_eq_iff, str_eq_refl}
use haojie.Common.Lists.{length}

abbrev pub Dict {ℓ} : Type ℓ → Type ℓ
Dict V = List (String × V)

module _ {ℓ} {V : Type ℓ} where
  -- `d.get(k)`
  unfoldable pub lookup : String → Dict V → Option V
  lookup k [] = none
  lookup k ((j, v) ∷ d) = if str_eq j k then some v else lookup k d

  -- `d[k] = v`
  unfoldable pub insert : String → V → Dict V → Dict V
  insert k v [] = (k, v) ∷ []
  insert k v ((j, w) ∷ d) = if str_eq j k then (j, v) ∷ d else (j, w) ∷ insert k v d

  -- `del d[k]`, or nothing if the key is absent
  unfoldable pub erase : String → Dict V → Dict V
  erase k [] = []
  erase k ((j, w) ∷ d) = if str_eq j k then d else (j, w) ∷ erase k d

  pub lookup-insert :
      (k j : String) (v : V) (d : Dict V)
      → lookup j (insert k v d) ≡ (if str_eq k j then some v else lookup j d)
  unfolding lookup insert
  lookup-insert k j v [] = refl
  lookup-insert k j v ((i, w) ∷ d) =
      ground (arith, str_eq_iff k j, str_eq_iff i k, str_eq_iff i j, lookup-insert k j v d)

  pub lookup-insert_self : (k : String) (v : V) (d : Dict V) → lookup k (insert k v d) ≡ some v
  lookup-insert_self k v d = rw (lookup-insert, str_eq_refl k)

  pub lookup-insert_ne :
      (k j : String) (v : V) (d : Dict V) → k ≢ j → lookup j (insert k v d) ≡ lookup j d
  lookup-insert_ne k j v d h = ground (arith, str_eq_iff k j, lookup-insert k j v d)

  pub erase-insert : (k : String) (v : V) (d : Dict V) → erase k (insert k v d) ≡ erase k d
  unfolding insert erase
  erase-insert k v [] = ground (arith, str_eq_refl k)
  erase-insert k v ((j, w) ∷ d) = ground (arith, str_eq_refl k, erase-insert k v d)

  pub lookup-append :
      (k : String) (c d : Dict V)
      → lookup k (c ++ d) ≡ elim (lookup k c) [ none ↦ lookup k d | some v ↦ some v ]
  unfolding lookup
  lookup-append k [] d = refl
  lookup-append k ((j, w) ∷ c) d = ground (arith, lookup-append k c d)

  pub lookup-erase_ne : (k j : String) (d : Dict V) → k ≢ j → lookup j (erase k d) ≡ lookup j d
  unfolding lookup erase
  lookup-erase_ne k j [] h = refl
  lookup-erase_ne k j ((i, w) ∷ d) h =
      ground (arith, str_eq_iff i k, str_eq_iff i j, lookup-erase_ne k j d h)

  pub length-erase :
      (k : String) (v : V) (d : Dict V) → lookup k d ≡ some v → length (erase k d) + 1 ≡ length d
  unfolding lookup erase
  length-erase k v [] h = cc
  length-erase k v ((j, w) ∷ d) h = ground (arith, length-erase k v d)

  pub erase_absent : (k : String) (d : Dict V) → lookup k d ≡ none → erase k d ≡ d
  unfolding lookup erase
  erase_absent k [] h = refl
  erase_absent k ((j, w) ∷ d) h = ground (arith, erase_absent k d)

  -- No key stands twice.
  abbrev pub Distinct : Dict V → Type ℓ
  Distinct [] = Unit
  Distinct ((j, w) ∷ d) = (lookup j d ≡ none) × Distinct d

  pub lookup-erase_self : (k : String) (d : Dict V) → Distinct d → lookup k (erase k d) ≡ none
  unfolding lookup erase
  lookup-erase_self k [] h = refl
  lookup-erase_self k ((j, w) ∷ d) h = ground (arith, str_eq_iff j k, lookup-erase_self k d h.1)

  pub Distinct-insert : (k : String) (v : V) (d : Dict V) → Distinct d → Distinct (insert k v d)
  unfolding insert lookup
  Distinct-insert k v [] h = ground arith
  Distinct-insert k v ((j, w) ∷ d) h =
      ground
        (arith, str_eq_iff j k, str_eq_iff k j, Distinct-insert k v d h.1, lookup-insert k j v d)

  Distinct-erase_aux : (j k : String) (d : Dict V) → lookup j d ≡ none → lookup j (erase k d) ≡ none
  unfolding lookup erase
  Distinct-erase_aux j k [] h = refl
  Distinct-erase_aux j k ((i, w) ∷ d) h = ground (arith, Distinct-erase_aux j k d)

  pub Distinct-erase : (k : String) (d : Dict V) → Distinct d → Distinct (erase k d)
  unfolding erase
  Distinct-erase k [] h = tt
  Distinct-erase k ((j, w) ∷ d) h = ground (arith, Distinct-erase_aux j k d, Distinct-erase k d h.1)

  pub Distinct-append_one :
      (k : String) (v : V) (d : Dict V)
      → Distinct d
      → lookup k d ≡ none
      → Distinct (d ++ (k, v) ∷ [])
  unfolding lookup
  Distinct-append_one k v [] h absent = ground arith
  Distinct-append_one k v ((j, w) ∷ d) h absent = ground (
    arith,
    str_eq_iff k j,
    str_eq_iff j k,
    lookup-append j d ((k, v) ∷ []),
    Distinct-append_one k v d h.1,
  )
