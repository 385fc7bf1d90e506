-- ===== src/Prelude/Lists.antt =====
-- Lists over the native numbers, and membership with its place kept.
use Prim.Native.Nat.{ℕ, suc, ◌+◌}
use mathlib.Core.Path.{◌≡◌, refl, sym, ap, ◌∙◌, subst}
use mathlib.Core.Logic.{inl, inr}
use mathlib.Core.Bool.{Bool, true, false}
use mathlib.Core.List.{List, [], ◌∷◌, ◌++◌, map, Memᴰ}
use mathlib.Core.Option.{Option, none, some}
use native.Mathlib.Omega.{arith}
use k8s_operator_libs.Prelude.Tests.{if◌then◌else◌, Bool-cases}

module _ {ℓ} {A : Type ℓ} where
  abbrev pub length : List A → ℕ
  length [] = 0
  length (x ∷ xs) = suc (length xs)

  abbrev pub is_empty : List A → Bool
  is_empty [] = true
  is_empty (_ ∷ _) = false

  abbrev pub is_none : Option A → Bool
  is_none none = true
  is_none (some _) = false

  -- How many elements pass a Boolean test.
  abbrev pub count_if : (A → Bool) → List A → ℕ
  count_if p [] = 0
  count_if p (x ∷ xs) = (if p x then 1 else 0) + count_if p xs

  -- The elements that pass a Boolean test, in order.
  abbrev pub select : (A → Bool) → List A → List A
  select p [] = []
  select p (x ∷ xs) = let rest = select p xs in if p x then x ∷ rest else rest

  pub length-append : (xs ys : List A) → length (xs ++ ys) ≡ length xs + length ys
  length-append [] ys = omega arith
  length-append (x ∷ xs) ys = omega (arith, length-append xs ys)

  pub count_if-append :
      (p : A → Bool) (xs ys : List A) → count_if p (xs ++ ys) ≡ count_if p xs + count_if p ys
  count_if-append p [] ys = omega arith
  count_if-append p (x ∷ xs) ys = omega (arith, count_if-append p xs ys)

-- An element of the image comes from an element.
pub Memᴰ-map {ℓ κ} :
    {A : Type ℓ} {B : Type κ} (f : A → B) (b : B) (xs : List A)
    → Memᴰ b (map f xs)
    → (a : A) × Memᴰ a xs × (f a ≡ b)
Memᴰ-map f b [] m = elim m [ ]
Memᴰ-map f b (x ∷ xs) (Memᴰ.head e) = (x, Memᴰ.head refl, sym e)
Memᴰ-map f b (x ∷ xs) (Memᴰ.tail m) = let (a, k, e) = Memᴰ-map f b xs m in (a, Memᴰ.tail k, e)

-- A selected element is one of the list, and passes the test.
pub Memᴰ-select {ℓ} :
    {A : Type ℓ} (p : A → Bool) (x : A) (xs : List A)
    → Memᴰ x (select p xs)
    → Memᴰ x xs × (p x ≡ true)
Memᴰ-select p x [] m = elim m [ ]
Memᴰ-select p x (y ∷ ys) m = elim (Bool-cases (p y)) [
  | inl kept ↦ elim (subst (λ b. Memᴰ x (if b then y ∷ select p ys else select p ys)) kept m) [
    | Memᴰ.head e ↦ (Memᴰ.head e, ap p e ∙ kept)
    | Memᴰ.tail later ↦ (let (k, e) = Memᴰ-select p x ys later in (Memᴰ.tail k, e))
  ]
  | inr dropped ↦
      (let (k, e) =
          Memᴰ-select p x ys
            (subst (λ b. Memᴰ x (if b then y ∷ select p ys else select p ys)) dropped m) in
        (Memᴰ.tail k, e))
]
