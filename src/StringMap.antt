-- ===== src/StringMap.antt =====
-- Go's `map[string]V`, as an association list in the order of insertion. A missing key of a map of
-- strings reads as "".
use k8s_operator_libs.Prelude.{
  String, ◌≡◌, refl, Bool, true, false, Option, none, some, List, [], ◌∷◌, arith, ◌==◌, eq_iff,
  if◌then◌else◌, ap, ◌∙◌, eq_refl,
}

abbrev pub StringMap {ℓ} : Type ℓ → Type ℓ
StringMap V = List (String × V)

module _ {ℓ} {V : Type ℓ} where
  -- `value, ok := m[key]`
  unfoldable pub lookup : String → StringMap V → Option V
  lookup key [] = none
  lookup key ((first, value) ∷ rest) = if first == key then some value else lookup key rest

  -- `_, ok := m[key]`
  unfoldable pub has : String → StringMap V → Bool
  unfolding lookup
  has key m = elim (lookup key m) [ none ↦ false | some _ ↦ true ]

  -- `delete(m, key)`
  unfoldable pub delete : String → StringMap V → StringMap V
  delete key [] = []
  delete key ((first, value) ∷ rest) =
      let kept = delete key rest in if first == key then kept else (first, value) ∷ kept

  -- `m[key] = value`: the entry keeps its place, and a new one is the last.
  unfoldable pub insert : String → V → StringMap V → StringMap V
  insert key value [] = (key, value) ∷ []
  insert key value ((first, old) ∷ rest) =
      let behind = insert key value rest in
      if first == key then (key, value) ∷ rest else (first, old) ∷ behind

  pub lookup-delete :
      (key other : String) (m : StringMap V)
      → lookup other (delete key m) ≡ (if key == other then none else lookup other m)
  unfolding lookup delete
  lookup-delete key other [] = ground arith
  lookup-delete key other ((first, value) ∷ rest) =
      ground (
        arith,
        lookup-delete key other rest,
        eq_iff first other,
        eq_iff first key,
        eq_iff key other,
      )

  pub lookup-insert :
      (key other : String) (value : V) (m : StringMap V)
      → lookup other (insert key value m) ≡ (if key == other then some value else lookup other m)
  unfolding lookup insert
  lookup-insert key other value [] = refl
  lookup-insert key other value ((first, old) ∷ rest) = ground (
    arith,
    lookup-insert key other value rest,
    eq_iff first other,
    eq_iff first key,
    eq_iff key other,
  )

-- `m[k]`
unfoldable pub value_of : String → StringMap String → String
unfolding lookup
value_of k m = elim (lookup k m) [ none ↦ "" | some v ↦ v ]

module _ {ℓ} {V : Type ℓ} where
  pub lookup-insert_same : (k : String) (v : V) (m : StringMap V) → lookup k (insert k v m) ≡ some v
  lookup-insert_same k v m = lookup-insert k k v m ∙ if_same
    where
      if_same : (if k == k then some v else lookup k m) ≡ some v
      if_same = rw (eq_refl)

  pub lookup-insert_other :
      (k j : String) (v : V) (m : StringMap V)
      → (k == j) ≡ false
      → lookup j (insert k v m) ≡ lookup j m
  lookup-insert_other k j v m other = lookup-insert k j v m ∙ if_other
    where
      if_other : (if k == j then some v else lookup j m) ≡ lookup j m
      if_other = rw other refl

pub value_of-insert : (k v : String) (m : StringMap String) → value_of k (insert k v m) ≡ v
unfolding value_of
value_of-insert k v m =
    ap (λ found. elim found [ none ↦ "" | some w ↦ w ]) (lookup-insert_same k v m)

-- A missing key reads as "".
pub value_of-missing : (k : String) (m : StringMap String) → has k m ≡ false → value_of k m ≡ ""
unfolding value_of has
value_of-missing k m = absent (lookup k m)
  where
    absent :
        (found : Option String)
        → (elim found [ none ↦ false | some _ ↦ true ]) ≡ false
        → ◌≡◌ {A = String} (elim found [ none ↦ "" | some v ↦ v ]) ""
    absent none e = refl
    absent (some v) e = cc
