-- ===== src/Config/Generators/Sound.antt =====
-- crates/jman-config/src/lib.rs: what a set of generators that `validate_generators` accepts has.
use jman.Base.{
  Text, text_eq, true, false, List, [], ◌∷◌, ok, err, ◌>>◌, ◌==◌, all_of, contains, arith, ◌≡◌,
  refl, for_each,
}
use jman.Config.Error.{Checked}
use jman.Config.Generators.{
  Generator, Generators, names, Outcome, ordered, stuck, exhausted, check_order,
}
use jman.Config.Generators.Remaining.{HasDistinctNames}
use jman.Config.Generators.Order.{AreDefined, IsOrder, Says, check_order-Says}
use jman.Config.Generators.Validate.{
  check_dependency, validate_generator, validate_all, validate_generators, report,
}

before : (m k : Checked) → (m >> k) ≡ ok tt → m ≡ ok tt
before (ok tt) k h = refl
before (err e) k h = cc

after : (m k : Checked) → (m >> k) ≡ ok tt → k ≡ ok tt
after (ok tt) k h = h
after (err e) k h = cc

check_dependency-ok :
    (name : Text) (gs : Generators) (d : Text)
    → check_dependency name gs d ≡ ok tt
    → (contains (names gs) d ≡ true) × ((d == name) ≡ false)
check_dependency-ok name gs d h = ground arith

for_each-ok :
    (name : Text) (gs : Generators) (ds : List Text)
    → for_each (check_dependency name gs) ds ≡ ok tt
    → all_of (contains (names gs)) ds ≡ true
for_each-ok name gs [] h = refl
for_each-ok name gs (d ∷ ds) h = ground (
  arith,
  check_dependency-ok name gs d (before _ _ h),
  for_each-ok name gs ds (after (check_dependency name gs d) _ h),
)

validate_generator-ok :
    (name : Text) (g : Generator) (gs : Generators)
    → validate_generator name g gs ≡ ok tt
    → all_of (contains (names gs)) g.depends_on ≡ true
unfolding validate_generator
validate_generator-ok name g gs h = for_each-ok name gs g.depends_on (after _ _ (before _ _ h))

validate_all-ok : (gs part : Generators) → validate_all gs part ≡ ok tt → AreDefined gs part
unfolding validate_all
validate_all-ok gs [] h = tt
validate_all-ok gs ((n, g) ∷ part) h = (
  validate_generator-ok n g gs (before (validate_generator n g gs) _ h),
  validate_all-ok gs part (after (validate_generator n g gs) _ h),
)

report-ok :
    (gs : Generators) (o : Outcome)
    → Says gs o
    → report o ≡ ok tt
    → (order : List Text) × IsOrder gs order × (all_of (contains order) (names gs) ≡ true)
report-ok gs (ordered complete) s h = (complete, s.0, s.1)
report-ok gs (stuck cycle) s h = cc
report-ok gs exhausted s h = absurd s

-- Generators with distinct names that pass the validation can be run one after another: there is
-- an order of all of them in which each comes after its dependencies, and no name is listed twice.
pub validate_generators-ok :
    (gs : Generators)
    → HasDistinctNames gs
    → validate_generators gs ≡ ok tt
    → (order : List Text) × IsOrder gs order × (all_of (contains order) (names gs) ≡ true)
unfolding validate_generators
validate_generators-ok gs d h =
    report-ok gs (check_order gs)
      (check_order-Says gs d (validate_all-ok gs gs (before (validate_all gs gs) _ h)))
      (after (validate_all gs gs) _ h)
