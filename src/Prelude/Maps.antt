-- ===== src/Prelude/Maps.antt =====
-- Go maps with text keys, as association lists. A new key goes to the end; the order of the list
-- is the order in which a `for range` visits the map, of which Go promises nothing.
use Prim.Native.String.{String}
use mathlib.Core.Path.{◌≡◌, refl, ap}
use mathlib.Core.Option.{Option, none, some}
use mathlib.Core.List.{List, [], ◌∷◌, ◌++◌}
use native.Mathlib.Omega.{arith}
use text.Mathlib.Text.{◌==◌}
use text.Mathlib.TextEquality.{eq_iff}
use testenv_vm.Prelude.Tests.{if◌then◌else◌, is_some, Bool-cases}
use mathlib.Core.Logic.{inl, inr}
use mathlib.Core.Bool.{Bool, false}
use text.Mathlib.TextPositions.{eq_refl}
use Prim.Native.Nat.{suc}
use testenv_vm.Prelude.Lists.{contains, length}

abbrev pub Dict {ℓ} : Type ℓ → Type ℓ
Dict V = List (String × V)

module _ {ℓ} {V : Type ℓ} where
  unfoldable pub lookup : String → Dict V → Option V
  lookup key [] = none
  lookup key ((first, x) ∷ rest) = if first == key then some x else lookup key rest

  -- `m[key] = x`
  unfoldable pub insert : String → V → Dict V → Dict V
  insert key x [] = (key, x) ∷ []
  insert key x ((first, y) ∷ rest) =
      if first == key then (first, x) ∷ rest else (first, y) ∷ insert key x rest

  -- `delete(m, k)`
  unfoldable pub remove : String → Dict V → Dict V
  remove k [] = []
  remove k ((j, v) ∷ m) = let rest = remove k m in if j == k then rest else (j, v) ∷ rest

  -- A write through the pointer that the map holds at `k`; nothing happens at a missing key.
  unfoldable pub adjust : String → (V → V) → Dict V → Dict V
  adjust k f [] = []
  adjust k f ((j, v) ∷ m) = let rest = adjust k f m in (if j == k then (j, f v) else (j, v)) ∷ rest

  unfoldable pub keys : Dict V → List String
  keys [] = []
  keys ((j, v) ∷ m) = j ∷ keys m

  -- `_, ok := m[k]`
  abbrev pub has : String → Dict V → Bool
  has k m = is_some (lookup k m)

  pub lookup-insert :
      (k j : String) (v : V) (m : Dict V)
      → lookup j (insert k v m) ≡ (if k == j then some v else lookup j m)
  unfolding lookup insert
  lookup-insert written read x [] = refl
  lookup-insert written read x ((first, y) ∷ rest) = ground (
    arith,
    lookup-insert written read x rest,
    eq_iff first written,
    eq_iff first read,
    eq_iff written read,
  )

  pub lookup-remove :
      (k j : String) (m : Dict V) → lookup j (remove k m) ≡ (if k == j then none else lookup j m)
  unfolding lookup remove
  lookup-remove k j [] = ground arith
  lookup-remove k j ((i, w) ∷ m) =
      ground (arith, lookup-remove k j m, eq_iff i k, eq_iff i j, eq_iff k j)

  pub lookup-adjust :
      (k j : String) (f : V → V) (m : Dict V)
      → lookup j (adjust k f m)
        ≡ (if k == j then elim (lookup j m) [ none ↦ none | some v ↦ some (f v) ] else lookup j m)
  unfolding lookup adjust
  lookup-adjust k j f [] = ground arith
  lookup-adjust k j f ((i, w) ∷ m) =
      ground (arith, lookup-adjust k j f m, eq_iff i k, eq_iff i j, eq_iff k j)

  pub keys-adjust : (k : String) (f : V → V) (m : Dict V) → keys (adjust k f m) ≡ keys m
  unfolding keys adjust
  keys-adjust k f [] = refl
  keys-adjust k f ((i, w) ∷ m) = ground (arith, keys-adjust k f m)

  pub keys-insert :
      (k : String) (v : V) (m : Dict V)
      → keys (insert k v m) ≡ (if has k m then keys m else keys m ++ k ∷ [])
  unfolding keys insert lookup
  keys-insert k v [] = refl
  keys-insert k v ((i, w) ∷ m) = ground (arith, keys-insert k v m)

  pub contains-keys : (k : String) (m : Dict V) → contains (keys m) k ≡ has k m
  unfolding keys contains lookup
  contains-keys k [] = refl
  contains-keys k ((i, w) ∷ m) = ground (arith, contains-keys k m)

  pub length-keys : (m : Dict V) → length (keys m) ≡ length m
  unfolding keys
  length-keys [] = refl
  length-keys ((k, v) ∷ m) = ap suc (length-keys m)

  pub remove-absent : (k : String) (m : Dict V) → has k m ≡ false → remove k m ≡ m
  unfolding lookup remove
  remove-absent k [] h = refl
  remove-absent k ((j, v) ∷ m) h = elim (Bool-cases (j == k)) [
    | inl same ↦ absurd (let h' = rw same at h in cc)
    | inr other ↦ rw other (ap (λ rest. (j, v) ∷ rest) (remove-absent k m (rw other at h)))
  ]

  pub remove-insert :
      (k : String) (v : V) (m : Dict V) → has k m ≡ false → remove k (insert k v m) ≡ m
  unfolding lookup remove insert
  remove-insert k v [] h = rw (eq_refl k) refl
  remove-insert k v ((j, w) ∷ m) h = elim (Bool-cases (j == k)) [
    | inl same ↦ absurd (let h' = rw same at h in cc)
    | inr other ↦
        rw other (rw other (ap (λ rest. (j, w) ∷ rest) (remove-insert k v m (rw other at h))))
  ]
