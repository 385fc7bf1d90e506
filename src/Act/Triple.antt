-- ===== src/Act/Triple.antt =====
-- What an action establishes when it succeeds: from a state with `P`, a result `a` comes with a state
-- that has `Q a`.
use mathlib.Core.Path.{subst}
use k8s_operator_libs.Prelude.{
  String, ◌≡◌, refl, sym, Bool, true, false, if◌then◌else◌, List, [], ◌∷◌,
}
use k8s_operator_libs.Act.Follows.{Preorder, Follows}
use k8s_operator_libs.Act.{
  Result, ok, err, Act, pure, lift, gets, continue, ◌>>=◌, ◌>>◌, wrap_result, wrap_error, fold_each,
  ok-injective,
}

pub record Triple {S A : Type 0} (P : S → Type 0) (m : Act S A) (Q : A → S → Type 0) : Type 0 where
  pub at : (s : S) → P s → (a : A) → (m s).0 ≡ ok a → Q a (m s).1

module _ {S A : Type 0} {P : S → Type 0} where
  pub Triple-pure : {Q : A → S → Type 0} (a : A) → ((s : S) → P s → Q a s) → Triple P (pure a) Q
  unfolding pure
  Triple-pure {Q} a k = record { at = λ s p b e. subst (λ x. Q x s) (ok-injective e) (k s p) }

  pub Triple-gets : (f : S → A) → Triple P (gets f) (λ a s. P s × (a ≡ f s))
  unfolding gets
  Triple-gets f = record { at = λ s p a e. (p, sym (ok-injective e)) }

  pub Triple-weaken :
      {P' : S → Type 0} {Q Q' : A → S → Type 0} {m : Act S A}
      → ((s : S) → P s → P' s)
      → ((a : A) (s : S) → Q a s → Q' a s)
      → Triple P' m Q
      → Triple P m Q'
  Triple-weaken before after k = record { at = λ s p a e. after a _ (k.at s (before s p) a e) }

module _ {S A B : Type 0} where
  Triple-continue :
      (Q : A → S → Type 0) (R : B → S → Type 0) (r : Result A) (s : S) (f : A → Act S B)
      → ((a : A) → r ≡ ok a → Q a s)
      → ((a : A) → Triple (Q a) (f a) R)
      → (b : B) → (continue r f s).0 ≡ ok b
      → R b (continue r f s).1
  unfolding continue
  Triple-continue Q R (ok a) s f q k b e = (k a).at s (q a refl) b e
  Triple-continue Q R (err x) s f q k b e = cc

module _ {S A B : Type 0} {P : S → Type 0} where
  pub Triple-bind :
      {R : B → S → Type 0} (Q : A → S → Type 0) (m : Act S A) (f : A → Act S B)
      → Triple P m Q
      → ((a : A) → Triple (Q a) (f a) R)
      → Triple P (m >>= f) R
  unfolding ◌>>=◌
  Triple-bind {R} Q m f km kf = record {
    at = λ s p b e. let (r, s') = m s in Triple-continue Q R r s' f (λ a e'. km.at s p a e') kf b e;
  }

  pub Triple-then :
      {R : B → S → Type 0} (Q : A → S → Type 0) (m : Act S A) (n : Act S B)
      → Triple P m Q
      → ((a : A) → Triple (Q a) n R)
      → Triple P (m >> n) R
  unfolding ◌>>◌
  Triple-then Q m n km kn = Triple-bind Q m (λ _. n) km kn

module _ {S A : Type 0} {P : S → Type 0} {Q : A → S → Type 0} where
  pub Triple-if :
      (b : Bool) (m n : Act S A)
      → (b ≡ true → Triple P m Q)
      → (b ≡ false → Triple P n Q)
      → Triple P (if b then m else n) Q
  Triple-if true m n km kn = km refl
  Triple-if false m n km kn = kn refl

module _ {S A : Type 0} where
  -- What the relation of an action preserves.
  pub Triple-of_Follows :
      {R : Preorder S} (P : S → Type 0) (m : Act S A)
      → Follows R m
      → ((s s' : S) → R.rel s s' → P s → P s')
      → Triple P m (λ _. P)
  Triple-of_Follows P m k keep = record { at = λ s p a e. keep s (m s).1 (k.at s) p }

  pub Triple-both :
      {P : S → Type 0} {Q R : A → S → Type 0} (m : Act S A)
      → Triple P m Q
      → Triple P m R
      → Triple P m (λ a s. Q a s × R a s)
  Triple-both m k l = record { at = λ s p a e. (k.at s p a e, l.at s p a e) }

pub wrap_result-eq-ok :
    {A : Type 0} (text : String) (r : Result A) (a : A) → wrap_result text r ≡ ok a → r ≡ ok a
wrap_result-eq-ok text (ok b) a e = e
wrap_result-eq-ok text (err x) a e = cc

module _ {S A : Type 0} {P : S → Type 0} where
  pub Triple-lift : (r : Result A) → Triple P (lift r) (λ _. P)
  unfolding lift
  Triple-lift r = record { at = λ s p a e. p }

  pub Triple-wrap_error :
      {Q : A → S → Type 0} (text : String) (m : Act S A)
      → Triple P m Q
      → Triple P (wrap_error text m) Q
  unfolding wrap_error
  Triple-wrap_error text m k = record {
    at = λ s p a e. k.at s p a (wrap_result-eq-ok text (m s).0 a e);
  }

module _ {S A B : Type 0} where
  -- An invariant of the variable and the state.
  pub Triple-fold_each :
      (I : B → S → Type 0) (f : B → A → Act S B)
      → ((x : A) (b : B) → Triple (I b) (f b x) I)
      → (xs : List A) (b : B) → Triple (I b) (fold_each xs b f) I
  unfolding fold_each
  Triple-fold_each I f step [] b = Triple-pure b (λ s i. i)
  Triple-fold_each I f step (x ∷ xs) b =
      Triple-bind I (f b x) (λ b'. fold_each xs b' f) (step x b)
        (λ b'. Triple-fold_each I f step xs b')
