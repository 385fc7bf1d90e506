-- ===== src/Act/Loops.antt =====
-- Invariants of loops with a variable.
use k8s_operator_libs.Prelude.{◌≡◌, refl, Bool, true, false, if◌then◌else◌, List, [], ◌∷◌}
use k8s_operator_libs.Act.{Act, fold_each}
use k8s_operator_libs.Act.Follows.{Returns, Returns-pure, Returns-bind_of_Returns}

module _ {S A B : Type 0} where
  -- The invariant speaks of the elements that are left and of the variable.
  pub Returns-fold_each :
      (I : List A → B → Type 0) (f : B → A → Act S B)
      → ((x : A) (rest : List A) (b : B) → I (x ∷ rest) b → Returns (I rest) (f b x))
      → (xs : List A) (b : B) → I xs b
      → Returns (I []) (fold_each xs b f)
  unfolding fold_each
  Returns-fold_each I f step [] b i = Returns-pure b i
  Returns-fold_each I f step (x ∷ xs) b i =
      Returns-bind_of_Returns (I xs) (f b x) (λ b'. fold_each xs b' f) (step x xs b i)
        (λ b' i'. Returns-fold_each I f step xs b' i')

module _ {S A : Type 0} {Q : A → Type 0} where
  pub Returns-if :
      (b : Bool) (m n : Act S A) → Returns Q m → Returns Q n → Returns Q (if b then m else n)
  Returns-if true m n km kn = km
  Returns-if false m n km kn = kn

  pub Returns-if_of_test :
      (b : Bool) (m n : Act S A)
      → (b ≡ true → Returns Q m)
      → (b ≡ false → Returns Q n)
      → Returns Q (if b then m else n)
  Returns-if_of_test true m n km kn = km refl
  Returns-if_of_test false m n km kn = kn refl
