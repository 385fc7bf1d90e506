-- ===== src/Act.antt =====
-- Go code that may return an error and that changes something outside its result.
-- An action takes the state and returns a result or an error, with the state that it left behind:
-- what was changed before an error stays changed.
pub mod Follows
pub mod Triple
pub mod Loops
use k8s_operator_libs.Prelude.{String, ◌≡◌, ap, Bool, true, false, List, [], ◌∷◌, if◌then◌else◌}

-- What the client libraries report, the errors made by `fmt.Errorf`, plain or with `%v`, and a panic,
-- which nothing recovers.
pub data Error : Type 0 where
  client_error : String → Error
  message : String → Error
  wrapped : String → Error → Error
  panic : String → Error

pub data Result {ℓ} (A : Type ℓ) : Type ℓ where
  ok : A → Result A
  err : Error → Result A

abbrev of_ok {ℓ} : {A : Type ℓ} → A → Result A → A
of_ok d (ok a) = a
of_ok d (err _) = d

pub ok-injective {ℓ} : {A : Type ℓ} {a b : A} → ◌≡◌ {A = Result A} (ok a) (ok b) → a ≡ b
ok-injective {a} e = ap (of_ok a) e

abbrev pub Act {ℓ} : Type ℓ → Type ℓ → Type ℓ
Act S A = S → Result A × S

module _ {ℓ} {S A : Type ℓ} where
  unfoldable pub pure : A → Act S A
  pure a s = (ok a, s)

  -- `return err`
  unfoldable pub raise : Error → Act S A
  raise e s = (err e, s)

  unfoldable pub lift : Result A → Act S A
  lift r s = (r, s)

  -- Read the state.
  unfoldable pub gets : (S → A) → Act S A
  gets f s = (ok (f s), s)

module _ {ℓ} {S A B : Type ℓ} where
  unfoldable pub continue : Result A → (A → Act S B) → Act S B
  continue (ok a) f s = f a s
  continue (err e) f s = (err e, s)

  -- `x, err := m; if err != nil { return err }` and the rest.
  infixl 10 ◌>>=◌ ◌>>◌
  unfoldable pub ◌>>=◌ : Act S A → (A → Act S B) → Act S B
  unfolding continue
  ◌>>=◌ m f s = let (r, s') = m s in continue r f s'

  unfoldable pub ◌>>◌ : Act S A → Act S B → Act S B
  unfolding ◌>>=◌
  m >> n = m >>= λ _. n

module _ {A : Type 0} where
  abbrev pub wrap_result : String → Result A → Result A
  wrap_result text (ok a) = ok a
  wrap_result text (err e) = err (wrapped text e)

module _ {S A : Type 0} where
  -- `if err != nil { return fmt.Errorf("…: %v", err) }`
  unfoldable pub wrap_error : String → Act S A → Act S A
  wrap_error text m s = let (r, s') = m s in (wrap_result text r, s')

  -- `_ = m`: the error is dropped.
  unfoldable pub ignore : Act S A → Act S Unit
  ignore m s = let (r, s') = m s in (ok tt, s')

abbrev pub is_ok {ℓ} : {A : Type ℓ} → Result A → Bool
is_ok (ok _) = true
is_ok (err _) = false

module _ {S A : Type 0} where
  -- `err := m`, where the code goes on by whether there was an error.
  unfoldable pub attempt : Act S A → Act S Bool
  attempt m s = let (r, s') = m s in (ok (is_ok r), s')

module _ {S : Type 0} where
  unfoldable pub modify : (S → S) → Act S Unit
  modify f s = (ok tt, f s)

  -- `if b { if err := m; err != nil { return err } }`
  unfoldable pub when : Bool → Act S Unit → Act S Unit
  unfolding pure
  when b m = if b then m else pure tt

module _ {S A : Type 0} where
  -- `for _, x := range xs { … return err … }`
  unfoldable pub for_each : List A → (A → Act S Unit) → Act S Unit
  for_each [] f = pure tt
  for_each (x ∷ xs) f = f x >> for_each xs f

module _ {S A B : Type 0} where
  -- The same loop with a variable that the rounds update.
  unfoldable pub fold_each : List A → B → (B → A → Act S B) → Act S B
  fold_each [] b f = pure b
  fold_each (x ∷ xs) b f = f b x >>= λ b'. fold_each xs b' f
