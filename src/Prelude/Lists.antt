-- ===== src/Prelude/Lists.antt =====
-- Lists under native lengths, and Boolean membership of texts.
use Prim.Native.Nat.{ℕ, suc, ◌+◌, ◌≤◌}
use Prim.Native.String.{String}
use mathlib.Core.Path.{◌≡◌, refl, ap, subst}
use mathlib.Core.Logic.{inl, inr}
use mathlib.Core.Bool.{Bool, true, false, ◌||◌}
use mathlib.Core.List.{List, [], ◌∷◌, ◌++◌, map}
use native.Mathlib.Omega.{arith}
use text.Mathlib.Text.{◌==◌}
use text.Mathlib.TextEquality.{eq_iff}
use testenv_vm.Prelude.Tests.{Bool-cases}

module _ {ℓ} {A : Type ℓ} where
  abbrev pub length : List A → ℕ
  length [] = 0
  length (x ∷ xs) = suc (length xs)

  pub length-append : (xs ys : List A) → length (xs ++ ys) ≡ length xs + length ys
  length-append [] ys = omega arith
  length-append (x ∷ xs) ys = omega (arith, length-append xs ys)

  abbrev pub All {κ} : (A → Type κ) → List A → Type κ
  All P [] = Unit
  All P (x ∷ xs) = P x × All P xs

  pub All-map {κ μ} :
      (P : A → Type κ) (Q : A → Type μ) (f : (x : A) → P x → Q x) (xs : List A)
      → All P xs
      → All Q xs
  All-map P Q f [] h = tt
  All-map P Q f (x ∷ xs) h = (f x h.0, All-map P Q f xs h.1)

  abbrev pub is_empty : List A → Bool
  is_empty [] = true
  is_empty (x ∷ xs) = false

pub length-map {ℓ κ} :
    {A : Type ℓ} {B : Type κ} (f : A → B) (xs : List A) → length (map f xs) ≡ length xs
length-map f [] = refl
length-map f (x ∷ xs) = ap suc (length-map f xs)

unfoldable pub contains : List String → String → Bool
contains [] a = false
contains (x ∷ xs) a = x == a || contains xs a

pub contains-append :
    (xs ys : List String) (a : String) → contains (xs ++ ys) a ≡ (contains xs a || contains ys a)
unfolding contains
contains-append [] ys a = refl
contains-append (x ∷ xs) ys a = ground (arith, contains-append xs ys a)

-- No text stands twice in the list.
abbrev pub Unique : List String → Type 0
Unique [] = Unit
Unique (x ∷ xs) = (contains xs x ≡ false) × Unique xs

-- The texts are taken one by one, and none was taken before.
abbrev pub IsFresh : List String → List String → Type 0
IsFresh done [] = Unit
IsFresh done (x ∷ xs) = (contains done x ≡ false) × IsFresh (x ∷ done) xs

abbrev pub done_after : List String → List String → List String
done_after [] done = done
done_after (x ∷ xs) done = done_after xs (x ∷ done)

pub contains-done_after :
    (xs done : List String) (a : String)
    → contains (done_after xs done) a ≡ (contains xs a || contains done a)
unfolding contains
contains-done_after [] done a = refl
contains-done_after (x ∷ xs) done a = ground (arith, contains-done_after xs (x ∷ done) a)

pub IsFresh-append :
    (xs ys done : List String)
    → IsFresh done xs
    → IsFresh (done_after xs done) ys
    → IsFresh done (xs ++ ys)
IsFresh-append [] ys done hx hy = hy
IsFresh-append (x ∷ xs) ys done hx hy = (hx.0, IsFresh-append xs ys (x ∷ done) hx.1 hy)

pub IsFresh-not_contains :
    (xs done : List String) (a : String)
    → IsFresh done xs
    → contains done a ≡ true
    → contains xs a ≡ false
unfolding contains
IsFresh-not_contains [] done a h m = refl
IsFresh-not_contains (x ∷ xs) done a h m =
    ground (arith, eq_iff x a, IsFresh-not_contains xs (x ∷ done) a h.1)

pub IsFresh-Unique : (xs done : List String) → IsFresh done xs → Unique xs
unfolding contains
IsFresh-Unique [] done h = tt
IsFresh-Unique (x ∷ xs) done h = (
  IsFresh-not_contains xs (x ∷ done) x h.1 (ground (arith, eq_iff x x)),
  IsFresh-Unique xs (x ∷ done) h.1,
)

pub Unique-IsFresh :
    (xs done : List String)
    → Unique xs
    → ((a : String) → contains xs a ≡ true → contains done a ≡ false)
    → IsFresh done xs
unfolding contains
Unique-IsFresh [] done u h = tt
Unique-IsFresh (x ∷ xs) done u h = (
  h x (ground (arith, eq_iff x x)),
  Unique-IsFresh xs (x ∷ done) u.1 (λ a m. ground (arith, h a, eq_iff x a)),
)

pub All-of_contains {κ} :
    (P : String → Type κ) (xs : List String)
    → ((a : String) → contains xs a ≡ true → P a)
    → All P xs
unfolding contains
All-of_contains P [] h = tt
All-of_contains P (x ∷ xs) h =
    (h x (ground (arith, eq_iff x x)), All-of_contains P xs (λ a m. h a (ground arith)))

pub All_at {κ} :
    (P : String → Type κ) (xs : List String) (a : String) → All P xs → contains xs a ≡ true → P a
unfolding contains
All_at P [] a h m = absurd (cc)
All_at P (x ∷ xs) a h m = elim (Bool-cases (x == a)) [
  | inl same ↦ subst P ((eq_iff x a).0 same) h.0
  | inr other ↦ All_at P xs a h.1 (ground arith)
]

pub All-unmap {ℓ κ μ} :
    {A : Type ℓ} {B : Type κ} (P : B → Type μ) (f : A → B) (xs : List A)
    → All P (map f xs)
    → All (λ x. P (f x)) xs
All-unmap P f [] h = tt
All-unmap P f (x ∷ xs) h = (h.0, All-unmap P f xs h.1)

pub is_empty-nil {ℓ} : {A : Type ℓ} (xs : List A) → is_empty xs ≡ true → xs ≡ []
is_empty-nil [] h = refl
is_empty-nil (x ∷ xs) h = cc

pub is_empty-pos {ℓ} : {A : Type ℓ} (xs : List A) → is_empty xs ≡ false → 1 ≤ length xs
is_empty-pos [] h = cc
is_empty-pos (x ∷ xs) h = omega arith

pub done_after-append :
    (xs ys done : List String) → done_after (xs ++ ys) done ≡ done_after ys (done_after xs done)
done_after-append [] ys done = refl
done_after-append (x ∷ xs) ys done = done_after-append xs ys (x ∷ done)

pub Unique-snoc :
    (xs : List String) (k : String) → Unique xs → contains xs k ≡ false → Unique (xs ++ k ∷ [])
unfolding contains
Unique-snoc [] k u h = (refl, tt)
Unique-snoc (x ∷ xs) k u h = (
  ground (arith, contains-append xs (k ∷ []) x, eq_iff x k, eq_iff k x),
  Unique-snoc xs k u.1 (ground arith),
)
