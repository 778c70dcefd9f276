-- ===== src/Build/Workspace/Runs.antt =====
-- crates/jman-build/src/lib.rs: how a discovery of modules ends.
use jman.Base.{
  Text, text_eq, Bool, true, false, Option, none, some, Result, ok, err, ◌>>=◌, require, ◌≡◌, refl,
}
use jman.Build.Workspace.{Stop, invalid, failed, panicked, exhausted}
use jman.Build.Workspace.Discovery.{or_failed}

-- It ends without a panic, and a result that has the property.
abbrev pub Yields {ℓ} : {A : Type ℓ} → (A → Type 0) → Result Stop A → Type 0
Yields P (ok a) = P a
Yields P (err (invalid message)) = Unit
Yields P (err (failed path)) = Unit
Yields P (err panicked) = ⊥
Yields P (err exhausted) = ⊥

pub Yields->>= {ℓ κ} :
    {A : Type ℓ} {B : Type κ} (P : A → Type 0) (Q : B → Type 0) (m : Result Stop A)
    (f : A → Result Stop B)
    → Yields P m
    → ((a : A) → P a → Yields Q (f a))
    → Yields Q (m >>= f)
Yields->>= P Q (ok a) f h k = k a h
Yields->>= P Q (err (invalid message)) f h k = tt
Yields->>= P Q (err (failed path)) f h k = tt
Yields->>= P Q (err panicked) f h k = h
Yields->>= P Q (err exhausted) f h k = h

pub Yields-mono {ℓ} :
    {A : Type ℓ} (P Q : A → Type 0) (m : Result Stop A)
    → ((a : A) → P a → Q a)
    → Yields P m
    → Yields Q m
Yields-mono P Q (ok a) k h = k a h
Yields-mono P Q (err (invalid message)) k h = tt
Yields-mono P Q (err (failed path)) k h = tt
Yields-mono P Q (err panicked) k h = h
Yields-mono P Q (err exhausted) k h = h

pub Yields-require :
    (b : Bool) (message : Text) → Yields (λ _. b ≡ true) (require b (invalid message))
Yields-require true message = refl
Yields-require false message = tt

pub Yields-or_failed :
    {A : Type 0} (path : Text) (o : Option A) → Yields (λ a. o ≡ some a) (or_failed path o)
Yields-or_failed path none = tt
Yields-or_failed path (some a) = refl
