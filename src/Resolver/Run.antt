-- ===== src/Resolver/Run.antt =====
-- crates/jman-resolver: how the model's runs stop. An index out of range panics, as `items[index]`
-- does; recursion that the source leaves open takes fuel.
pub mod Safe
use jman.Base.{ℕ, zero, suc, List, [], ◌∷◌, Result, ok, err, ◌>>=◌}
use jman.Resolver.Error.{ResolverError, Fallible}

-- An error of the program, a panic, or fuel that is used up.
pub data Stop : Type 0 where
  failed : ResolverError → Stop
  panicked : Stop
  exhausted : Stop

abbrev pub Run {ℓ} : Type ℓ → Type ℓ
Run A = Result Stop A

abbrev pub lift {ℓ} : {A : Type ℓ} → Fallible A → Run A
lift (ok a) = ok a
lift (err e) = err (failed e)

module _ {ℓ} {A : Type ℓ} where
  -- `&items[index]`
  unfoldable pub at_index : List A → ℕ → Run A
  at_index [] i = err panicked
  at_index (x ∷ xs) zero = ok x
  at_index (x ∷ xs) (suc i) = at_index xs i

  -- `items[index] = f(items[index])`
  unfoldable pub update_at : List A → ℕ → (A → A) → Run (List A)
  update_at [] i f = err panicked
  update_at (x ∷ xs) zero f = ok (f x ∷ xs)
  update_at (x ∷ xs) (suc i) f = do ys ← update_at xs i f; ok (x ∷ ys)
