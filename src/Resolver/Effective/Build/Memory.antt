-- ===== src/Resolver/Effective/Build/Memory.antt =====
-- crates/jman-resolver/src/effective.rs: the cache of effective models.
use jman.Base.{
  ℕ, zero, suc, Text, text_eq, some, List, [], ◌∷◌, ◌++◌, ok, err, contains, lookup, arith, ◌≡◌,
  refl, Option-cases, Bool-cases, inl, inr,
}
use jman.Resolver.Run.{Run, failed, lift}
use jman.Resolver.Coordinate.{Coordinate, display}
use jman.Resolver.Pom.{EffectivePom}
use jman.Resolver.Effective.Build.{
  Source, Cache, Builder, continue, give, load, build_raw, in_context, store, build_fresh,
  build_remote, cycle,
}

continue-ok :
    {A B : Type 0} (r : Run (A × Cache)) (f : A → Builder B) {x : B × Cache}
    → continue r f ≡ ok x
    → (a : A) × (cache : Cache) × (f a cache ≡ ok x)
continue-ok (ok (a, cache)) f h = (a, cache, h)
continue-ok (err e) f h = cc

stored :
    (key : Text) (model : EffectivePom) (cache : Cache) (m : EffectivePom) (after : Cache)
    → store key model cache ≡ ok (m, after)
    → lookup key after ≡ some m
unfolding store lookup
stored key model cache m after h = ground (arith, h)

module _ (source : Source) where
  build_fresh-stored :
      (remote : Coordinate → Builder EffectivePom) (c : Coordinate) (cache : Cache)
      (m : EffectivePom) (after : Cache)
      → build_fresh source remote c cache ≡ ok (m, after)
      → lookup (display c) after ≡ some m
  unfolding build_fresh
  build_fresh-stored remote c cache m after h =
      let (raw, c1, h1) = continue-ok (give (lift (load source c)) cache) _ h in
      let (model, c2, h2) =
        continue-ok (in_context (display c) (build_raw source.host remote raw) c1) _ h1 in
      stored (display c) model c2 m after h2

  -- A model that was built is remembered: building it again, under whatever stack and with
  -- whatever fuel but none, gives the same model and leaves the cache as it is.
  pub build_remote-again :
      (fuel more : ℕ) (stack other : List Text) (c : Coordinate) (cache : Cache) (m : EffectivePom)
      (after : Cache)
      → build_remote source fuel stack c cache ≡ ok (m, after)
      → build_remote source (suc more) other c after ≡ ok (m, after)
  unfolding build_remote
  build_remote-again zero more stack other c cache m after h = cc
  build_remote-again (suc fuel) more stack other c cache m after h = rw (found) refl
    where
      found : lookup (display c) after ≡ some m
      found = elim (Option-cases (lookup (display c) cache)) [
        | inr (model, e) ↦
            let k : Path (Run (EffectivePom × Cache)) (ok (model, cache)) (ok (m, after)) =
              rw e at h in
            cc (e, k)
        | inl e ↦ elim (Bool-cases (contains stack (display c))) [
          | inl on ↦
              let k : Path (Run (EffectivePom × Cache))
                  (err (failed (cycle source stack (display c)))) (ok (m, after)) =
                rw (e, on) at h in
              cc (k)
          | inr new ↦
              build_fresh-stored (build_remote source fuel (stack ++ (display c ∷ []))) c cache m
                after (rw (e, new) at h)
        ]
      ]
