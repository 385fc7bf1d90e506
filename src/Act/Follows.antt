-- ===== src/Act/Follows.antt =====
-- What every run of an action does to the state, errors included, with one rule for each way to
-- build an action. The relation is reflexive and transitive, so that the parts of a block compose.
use k8s_operator_libs.Prelude.{
  String, ◌≡◌, refl, Bool, true, false, List, [], ◌∷◌, Memᴰ, if◌then◌else◌,
}
use mathlib.Core.Path.{subst}
use k8s_operator_libs.Act.{
  Error, Result, ok, err, Act, pure, raise, lift, gets, continue, ◌>>=◌, ◌>>◌, wrap_error, ignore,
  attempt, modify, when, for_each, fold_each, ok-injective,
}

pub record Preorder (S : Type 0) : Type 1 where
  pub rel : S → S → Type 0
  pub rel_refl : (s : S) → rel s s
  pub rel_trans : (s t u : S) → rel s t → rel t u → rel s u

-- The state that `m` leaves, after a result or an error, is related to the state it began in.
pub record Follows {S A : Type 0} (R : Preorder S) (m : Act S A) : Type 0 where
  pub at : (s : S) → R.rel s (m s).1

module _ {S A : Type 0} {R : Preorder S} where
  pub Follows-pure : (a : A) → Follows R (pure a)
  unfolding pure
  Follows-pure a = record { at = λ s. R.rel_refl s }

  pub Follows-raise : (e : Error) → Follows R (raise {A = A} e)
  unfolding raise
  Follows-raise e = record { at = λ s. R.rel_refl s }

  pub Follows-lift : (r : Result A) → Follows R (lift r)
  unfolding lift
  Follows-lift r = record { at = λ s. R.rel_refl s }

  pub Follows-gets : (f : S → A) → Follows R (gets f)
  unfolding gets
  Follows-gets f = record { at = λ s. R.rel_refl s }

  pub Follows-wrap_error :
      (text : String) (m : Act S A) → Follows R m → Follows R (wrap_error text m)
  unfolding wrap_error
  Follows-wrap_error text m k = record { at = λ s. k.at s }

  pub Follows-ignore : (m : Act S A) → Follows R m → Follows R (ignore m)
  unfolding ignore
  Follows-ignore m k = record { at = λ s. k.at s }

  pub Follows-attempt : (m : Act S A) → Follows R m → Follows R (attempt m)
  unfolding attempt
  Follows-attempt m k = record { at = λ s. k.at s }

  pub Follows-if :
      (b : Bool) (m n : Act S A)
      → (b ≡ true → Follows R m)
      → (b ≡ false → Follows R n)
      → Follows R (if b then m else n)
  Follows-if true m n km kn = km refl
  Follows-if false m n km kn = kn refl

module _ {S : Type 0} {R : Preorder S} where
  pub Follows-modify : (f : S → S) → ((s : S) → R.rel s (f s)) → Follows R (modify f)
  unfolding modify
  Follows-modify f k = record { at = k }

  pub Follows-when : (b : Bool) (m : Act S Unit) → (b ≡ true → Follows R m) → Follows R (when b m)
  unfolding when
  Follows-when true m k = k refl
  Follows-when false m k = Follows-pure tt

module _ {S A B : Type 0} {R : Preorder S} where
  Follows-continue :
      (s : S) (r : Result A) (s' : S) (f : A → Act S B)
      → R.rel s s'
      → ((a : A) → Follows R (f a))
      → R.rel s (continue r f s').1
  unfolding continue
  Follows-continue s (ok a) s' f h kf = R.rel_trans s s' (f a s').1 h ((kf a).at s')
  Follows-continue s (err e) s' f h kf = h

  pub Follows-bind :
      (m : Act S A) (f : A → Act S B)
      → Follows R m
      → ((a : A) → Follows R (f a))
      → Follows R (m >>= f)
  unfolding ◌>>=◌
  Follows-bind m f km kf = record {
    at = λ s. let (r, s') = m s in Follows-continue s r s' f (km.at s) kf;
  }

  pub Follows-then : (m : Act S A) (n : Act S B) → Follows R m → Follows R n → Follows R (m >> n)
  unfolding ◌>>◌
  Follows-then m n km kn = Follows-bind m (λ _. n) km (λ _. kn)

pub ruleset follows_rules = (
  Follows-pure, Follows-raise, Follows-lift, Follows-gets, Follows-wrap_error, Follows-ignore,
  Follows-if, Follows-when, Follows-bind, Follows-then,
)

module _ {S A : Type 0} {R : Preorder S} where
  -- The body may use that its element is in the list.
  pub Follows-for_each :
      (xs : List A) (f : A → Act S Unit)
      → ((x : A) → Memᴰ x xs → Follows R (f x))
      → Follows R (for_each xs f)
  unfolding for_each
  Follows-for_each [] f k = Follows-pure tt
  Follows-for_each (x ∷ xs) f k =
      Follows-then (f x) (for_each xs f) (k x (Memᴰ.head refl))
        (Follows-for_each xs f (λ y m. k y (Memᴰ.tail m)))

module _ {S A B : Type 0} {R : Preorder S} where
  pub Follows-fold_each :
      (xs : List A) (b : B) (f : B → A → Act S B)
      → ((b : B) (x : A) → Memᴰ x xs → Follows R (f b x))
      → Follows R (fold_each xs b f)
  unfolding fold_each
  Follows-fold_each [] b f k = Follows-pure b
  Follows-fold_each (x ∷ xs) b f k =
      Follows-bind (f b x) (λ b'. fold_each xs b' f) (k b x (Memᴰ.head refl))
        (λ b'. Follows-fold_each xs b' f (λ b'' y m. k b'' y (Memᴰ.tail m)))

-- What holds of the result, whenever there is one.
pub record Returns {S A : Type 0} (Q : A → Type 0) (m : Act S A) : Type 0 where
  pub at : (s : S) (a : A) → (m s).0 ≡ ok a → Q a

module _ {S A B : Type 0} {R : Preorder S} where
  Follows-continue_of_result :
      (s : S) (r : Result A) (s' : S) (f : A → Act S B)
      → R.rel s s'
      → ((a : A) → r ≡ ok a → Follows R (f a))
      → R.rel s (continue r f s').1
  unfolding continue
  Follows-continue_of_result s (ok a) s' f h kf = R.rel_trans s s' (f a s').1 h ((kf a refl).at s')
  Follows-continue_of_result s (err e) s' f h kf = h

  -- The rest of the block may use what is known of the result.
  pub Follows-bind_of_Returns :
      (Q : A → Type 0) (m : Act S A) (f : A → Act S B)
      → Returns Q m
      → Follows R m
      → ((a : A) → Q a → Follows R (f a))
      → Follows R (m >>= f)
  unfolding ◌>>=◌
  Follows-bind_of_Returns Q m f q km kf = record {
    at = λ s.
        let (r, s') = m s in
        Follows-continue_of_result s r s' f (km.at s) (λ a e. kf a (q.at s a e));
  }

module _ {S A B : Type 0} where
  Returns-continue :
      (Q : B → Type 0) (r : Result A) (s : S) (f : A → Act S B)
      → ((a : A) → r ≡ ok a → Returns Q (f a))
      → (b : B) → (continue r f s).0 ≡ ok b
      → Q b
  unfolding continue
  Returns-continue Q (ok a) s f k b e = (k a refl).at s b e
  Returns-continue Q (err x) s f k b e = cc

  pub Returns-bind :
      {Q : B → Type 0} (m : Act S A) (f : A → Act S B)
      → ((a : A) → Returns Q (f a))
      → Returns Q (m >>= f)
  unfolding ◌>>=◌
  Returns-bind {Q} m f k = record {
    at = λ s b e. let (r, s') = m s in Returns-continue Q r s' f (λ a _. k a) b e;
  }

  pub Returns-bind_of_Returns :
      (P : A → Type 0) {Q : B → Type 0} (m : Act S A) (f : A → Act S B)
      → Returns P m
      → ((a : A) → P a → Returns Q (f a))
      → Returns Q (m >>= f)
  unfolding ◌>>=◌
  Returns-bind_of_Returns P {Q} m f p k = record {
    at = λ s b e. let (r, s') = m s in Returns-continue Q r s' f (λ a e'. k a (p.at s a e')) b e;
  }

module _ {S A : Type 0} where
  pub Returns-pure : {Q : A → Type 0} (a : A) → Q a → Returns {S = S} Q (pure a)
  unfolding pure
  Returns-pure {Q} a q = record { at = λ s b e. subst Q (ok-injective e) q }

  pub Returns-gets : {Q : A → Type 0} (f : S → A) → ((s : S) → Q (f s)) → Returns Q (gets f)
  unfolding gets pure
  Returns-gets {Q} f k = record { at = λ s. (Returns-pure (f s) (k s)).at s }
