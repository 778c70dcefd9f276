-- ===== src/Config/Generators/Order.antt =====
-- crates/jman-config/src/lib.rs: the search for a dependency cycle between generators finds an
-- order, or a set of generators each of which waits for another of the set.
use jman.Base.{
  ℕ, zero, suc, ◌+◌, ◌≤◌, ◌<◌, Text, text_eq, Bool, true, false, List, [], ◌∷◌, ◌==◌, ◌&&◌, not,
  if◌then◌else◌, is_empty, all_of, any_of, contains, length, leb, arith, ◌≡◌, refl, Bool-cases, inl,
  inr,
}
use jman.Config.Generators.{
  Generator, Generators, names, ready, incomplete, insert_names, Outcome, ordered, stuck, exhausted,
  complete_rounds, check_order,
}
use jman.Config.Generators.Remaining.{
  HasDistinctNames, remaining, remaining-insert, remaining-nothing, remaining-zero,
  length-incomplete,
}

-- The dependencies of the first generator of the name.
pub depends_on : Text → Generators → List Text
depends_on name [] = []
depends_on name ((n, g) ∷ generators) =
    if n == name then g.depends_on else depends_on name generators

-- Every name comes after all its dependencies; the list begins with the last.
abbrev pub IsOrder : Generators → List Text → Type 0
IsOrder generators [] = Unit
IsOrder generators (n ∷ earlier) =
    (all_of (contains earlier) (depends_on n generators) ≡ true)
    × (contains earlier n ≡ false)
    × (contains (names generators) n ≡ true)
    × IsOrder generators earlier

-- All names of the list are waiting for nothing but what is complete.
AllReady : Generators → List Text → List Text → Type 0
AllReady gs complete [] = Unit
AllReady gs complete (n ∷ next) =
    (all_of (contains complete) (depends_on n gs) ≡ true)
    × (contains (names gs) n ≡ true)
    × AllReady gs complete next

all_of-more :
    (complete ds : List Text) (n : Text)
    → all_of (contains complete) ds ≡ true
    → all_of (contains (n ∷ complete)) ds ≡ true
all_of-more complete [] n h = refl
all_of-more complete (d ∷ ds) n h = ground (arith, all_of-more complete ds n)

module _ (gs : Generators) where
  AllReady-more :
      (complete next : List Text) (n : Text)
      → AllReady gs complete next
      → AllReady gs (n ∷ complete) next
  unfolding AllReady
  AllReady-more complete [] n h = tt
  AllReady-more complete (m ∷ next) n (d, k, h) =
      (all_of-more complete (depends_on m gs) n d, k, AllReady-more complete next n h)

  insert_names-IsOrder :
      (complete next : List Text)
      → IsOrder gs complete
      → AllReady gs complete next
      → IsOrder gs (insert_names complete next)
  unfolding insert_names AllReady
  insert_names-IsOrder complete [] o h = o
  insert_names-IsOrder complete (n ∷ next) o (d, k, h) = elim (Bool-cases (contains complete n)) [
    | inl old ↦ rw old (insert_names-IsOrder complete next o h)
    | inr new ↦
        rw new (
          insert_names-IsOrder (n ∷ complete) next (d, new, k, o) (AllReady-more complete next n h))
  ]

  -- The names of a part of the generators have their own dependencies in the whole.
  Sub : Generators → Type 0
  Sub [] = Unit
  Sub ((n, g) ∷ part) = (depends_on n gs ≡ g.depends_on) × (contains (names gs) n ≡ true) × Sub part

  ready-AllReady :
      (complete : List Text) (part : Generators)
      → Sub part
      → AllReady gs complete (ready complete part)
  unfolding ready AllReady Sub
  ready-AllReady complete [] s = tt
  ready-AllReady complete ((n, g) ∷ part) (e, k, s) =
      elim (Bool-cases (not (contains complete n) && all_of (contains complete) g.depends_on)) [
        | inl now ↦ rw now (rw e (ground arith), k, ready-AllReady complete part s)
        | inr later ↦ rw later (ready-AllReady complete part s)
      ]

Sub-more :
    (gs part : Generators) (n : Text) (g : Generator)
    → contains (names part) n ≡ false
    → Sub gs part
    → Sub ((n, g) ∷ gs) part
unfolding Sub depends_on
Sub-more gs [] n g h s = tt
Sub-more gs ((m, f) ∷ part) n g h (e, k, s) =
    (ground arith, ground arith, Sub-more gs part n g (ground arith) s)

Sub-self : (gs : Generators) → HasDistinctNames gs → Sub gs gs
unfolding Sub depends_on
Sub-self [] d = tt
Sub-self ((n, g) ∷ gs) (absent, d) =
    (ground (arith), ground arith, Sub-more gs gs n g absent (Sub-self gs d))

insert_names-remaining :
    (gs : Generators) (complete next : List Text)
    → HasDistinctNames gs
    → AllReady gs complete next
    → (length (insert_names complete next) + remaining (insert_names complete next) gs
        ≡ length complete + remaining complete gs)
      × (remaining (insert_names complete next) gs ≤ remaining complete gs)
unfolding insert_names AllReady
insert_names-remaining gs complete [] d h = (refl, omega arith)
insert_names-remaining gs complete (n ∷ next) d (r, k, h) =
    elim (Bool-cases (contains complete n)) [
      | inl old ↦ rw old (insert_names-remaining gs complete next d h)
      | inr new ↦ rw new (
        omega (
          arith,
          (insert_names-remaining gs (n ∷ complete) next d (AllReady-more gs complete next n h)).0,
          remaining-insert complete gs n d k new,
        ),
        omega (
          arith,
          (insert_names-remaining gs (n ∷ complete) next d (AllReady-more gs complete next n h)).1,
          remaining-insert complete gs n d k new,
        ),
      )
    ]

-- A round with something ready completes a name.
ready-progress :
    (gs : Generators) (complete : List Text) (part : Generators)
    → HasDistinctNames gs
    → Sub gs part
    → is_empty (ready complete part) ≡ false
    → remaining (insert_names complete (ready complete part)) gs < remaining complete gs
unfolding ready Sub insert_names
ready-progress gs complete [] d s h = cc
ready-progress gs complete ((n, g) ∷ part) d (e, k, s) h =
    elim (Bool-cases (not (contains complete n) && all_of (contains complete) g.depends_on)) [
      | inr later ↦ rw later (ready-progress gs complete part d s (ground arith))
      | inl now ↦ rw now (
          let new : contains complete n ≡ false = ground arith in
          rw (new, insert_names)
            (omega (
              arith,
              (insert_names-remaining gs (n ∷ complete) (ready complete part) d
                  (AllReady-more gs complete _ n (ready-AllReady gs complete part s))).1,
              remaining-insert complete gs n d k new,
            )))
    ]

contains-incomplete :
    (complete : List Text) (gs : Generators) (d : Text)
    → contains (names gs) d ≡ true
    → contains complete d ≡ false
    → contains (incomplete complete gs) d ≡ true
unfolding incomplete
contains-incomplete complete [] d h k = cc
contains-incomplete complete ((n, g) ∷ gs) d h k = ground (arith, contains-incomplete complete gs d)

any_of-incomplete :
    (complete : List Text) (gs : Generators) (ds : List Text)
    → all_of (contains (names gs)) ds ≡ true
    → all_of (contains complete) ds ≡ false
    → any_of (contains (incomplete complete gs)) ds ≡ true
any_of-incomplete complete gs [] h k = cc
any_of-incomplete complete gs (d ∷ ds) h k =
    ground (arith, any_of-incomplete complete gs ds, contains-incomplete complete gs d)

-- The dependencies of a part of the generators are generators.
abbrev pub AreDefined : Generators → Generators → Type 0
AreDefined gs [] = Unit
AreDefined gs ((n, g) ∷ part) =
    (all_of (contains (names gs)) g.depends_on ≡ true) × AreDefined gs part

-- Each name of the list has a dependency in the list.
abbrev pub waits_within : Generators → List Text → List Text → Bool
waits_within gs cycle = all_of (λ n. any_of (contains cycle) (depends_on n gs))

incomplete-waits :
    (gs : Generators) (complete : List Text) (part : Generators)
    → Sub gs part
    → AreDefined gs part
    → is_empty (ready complete part) ≡ true
    → waits_within gs (incomplete complete gs) (incomplete complete part) ≡ true
unfolding incomplete ready Sub
incomplete-waits gs complete [] s d h = refl
incomplete-waits gs complete ((n, g) ∷ part) (e, k, s) (defined, d) h =
    elim (Bool-cases (contains complete n)) [
      | inl old ↦ rw old (incomplete-waits gs complete part s d (ground arith))
      | inr new ↦
          rw (new, e)
            (ground (
              arith,
              any_of-incomplete complete gs g.depends_on defined,
              incomplete-waits gs complete part s d,
            ))
    ]

-- What the outcome says: an order in which every generator stands, after all its dependencies, or
-- a list of generators, not empty, each of which depends on one of the list.
abbrev pub Says : Generators → Outcome → Type 0
Says gs (ordered complete) = IsOrder gs complete × (all_of (contains complete) (names gs) ≡ true)
Says gs (stuck cycle) = (is_empty cycle ≡ false) × (waits_within gs cycle cycle ≡ true)
Says gs exhausted = ⊥

complete_rounds-Says :
    (gs : Generators) (fuel : ℕ) (complete : List Text)
    → HasDistinctNames gs
    → AreDefined gs gs
    → IsOrder gs complete
    → length complete + remaining complete gs ≡ length gs
    → remaining complete gs ≤ fuel
    → Says gs (complete_rounds fuel gs complete)
unfolding complete_rounds
complete_rounds-Says gs zero complete d a o m f =
    let all : leb (length gs) (length complete) ≡ true = ground arith in
    rw all (o, remaining-zero complete gs (omega arith))
complete_rounds-Says gs (suc fuel) complete d a o m f =
    elim (Bool-cases (leb (length gs) (length complete))) [
      | inl all ↦ rw all (o, remaining-zero complete gs (ground arith))
      | inr more ↦ rw more (elim (Bool-cases (is_empty (ready complete gs))) [
        | inl nothing ↦ rw nothing (
          ground (arith, length-incomplete complete gs),
          incomplete-waits gs complete gs (Sub-self gs d) a nothing,
        )
        | inr some_ready ↦ rw some_ready (
            complete_rounds-Says gs fuel (insert_names complete (ready complete gs)) d a
              (insert_names-IsOrder gs complete _ o (ready-AllReady gs complete gs (Sub-self gs d)))
              (omega (
                arith,
                (insert_names-remaining gs complete _ d
                    (ready-AllReady gs complete gs (Sub-self gs d))).0,
              ))
              (omega (arith, ready-progress gs complete gs d (Sub-self gs d) some_ready)))
      ])
    ]

-- For generators with distinct names and defined dependencies the search always ends: with an
-- order in which every generator comes after all its dependencies, or with a list of generators
-- that is not empty and in which each depends on another of the list, so that none can run.
pub check_order-Says :
    (gs : Generators) → HasDistinctNames gs → AreDefined gs gs → Says gs (check_order gs)
unfolding check_order
check_order-Says gs d a =
    complete_rounds-Says gs (length gs) [] d a tt (remaining-nothing gs)
      (omega (arith, remaining-nothing gs))
