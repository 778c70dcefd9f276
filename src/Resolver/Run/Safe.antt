-- ===== src/Resolver/Run/Safe.antt =====
-- crates/jman-resolver: runs without a panic, whose results have a property.
use jman.Base.{ℕ, zero, suc, ◌<◌, List, [], ◌∷◌, ok, err, ◌>>=◌, arith, ◌≡◌, length, map}
use jman.Resolver.Error.{Fallible}
use jman.Resolver.Run.{Run, failed, panicked, exhausted, lift, at_index, update_at}

-- A run that does not panic, and whose result has the property.
abbrev pub Safe {ℓ} : {A : Type ℓ} → (A → Type 0) → Run A → Type 0
Safe P (ok a) = P a
Safe P (err (failed e)) = Unit
Safe P (err panicked) = ⊥
Safe P (err exhausted) = Unit

pub Safe->>= {ℓ κ} :
    {A : Type ℓ} {B : Type κ} (P : A → Type 0) (Q : B → Type 0) (m : Run A) (f : A → Run B)
    → Safe P m
    → ((a : A) → P a → Safe Q (f a))
    → Safe Q (m >>= f)
Safe->>= P Q (ok a) f h k = k a h
Safe->>= P Q (err (failed e)) f h k = tt
Safe->>= P Q (err panicked) f h k = h
Safe->>= P Q (err exhausted) f h k = tt

module _ {ℓ} {A : Type ℓ} where
  pub at_index-Safe : (xs : List A) (i : ℕ) → i < length xs → Safe (λ _. Unit {0}) (at_index xs i)
  unfolding at_index
  at_index-Safe [] i h = elim h [ ]
  at_index-Safe (x ∷ xs) zero h = tt
  at_index-Safe (x ∷ xs) (suc i) h = at_index-Safe xs i (omega arith)

  -- An update in range succeeds and keeps every aspect that the function keeps.
  pub update_at-Safe :
      {B : Type 0} (aspect : A → B) (xs : List A) (i : ℕ) (f : A → A)
      → ((x : A) → aspect (f x) ≡ aspect x)
      → i < length xs
      → Safe (λ ys. map aspect ys ≡ map aspect xs) (update_at xs i f)
  unfolding update_at
  update_at-Safe aspect [] i f keep h = elim h [ ]
  update_at-Safe aspect (x ∷ xs) zero f keep h = rw (keep x)
  update_at-Safe aspect (x ∷ xs) (suc i) f keep h =
      Safe->>= _ _ (update_at xs i f) _ (update_at-Safe aspect xs i f keep (omega arith))
        (λ ys e. rw e)

pub Safe-lift : {A : Type 0} (m : Fallible A) → Safe (λ (a : A). Unit {0}) (lift m)
Safe-lift (ok a) = tt
Safe-lift (err e) = tt
