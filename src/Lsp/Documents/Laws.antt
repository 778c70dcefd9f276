-- ===== src/Lsp/Documents/Laws.antt =====
-- crates/jman-java-lsp/src/documents.rs: what a change of a document leaves.
use mathlib.Core.List.{append_assoc}
use jman.Base.{
  ℕ, ◌+◌, Text, false, Option, none, some, List, [], ◌∷◌, ◌++◌, ok, err, ltb, arith, ◌≡◌, refl, ◌≢◌,
  Bool-cases, inl, inr, ap, ◌∙◌, Result, Result-cases, Option-cases, lookup, map_insert,
}
use jman.Lsp.Positions.{EditError, panicked, position_to_byte, offset_to_position}
use jman.Lsp.Positions.Roundtrip.{bytes, units, position_to_byte-offset}
use jman.Lsp.Documents.{
  ℤ, version_at_most, Document, Documents, Range, Change, replace_range, replace_in, replace_with,
  apply_change, apply_changes, change, finish_change,
}
use jman.Lsp.Documents.Applied.{
  take_bytes-append, drop_bytes-append, IsBoundary, position_to_byte-IsBoundary,
  position_to_byte_panicked, bytes-append,
}

replace_range-boundaries :
    (start stop : ℕ) (replacement text : Text)
    → IsBoundary text start
    → IsBoundary text stop
    → replace_range start stop replacement text ≢ err panicked
replace_range-boundaries start stop replacement text (a, b, e, h) (x, y, f, k) p =
    cc (p, e, f, h, k, take_bytes-append a b, drop_bytes-append x y)

replace_in_panicked :
    (replacement : Text) (range : Option Range) (text : Text)
    → replace_in replacement range text ≢ err panicked
replace_in_panicked replacement none text h = cc
replace_in_panicked replacement (some range) text h =
    elim (Result-cases (position_to_byte text range.start)) [
      | inr (e, p) ↦ position_to_byte_panicked text range.start (cc)
      | inl (start, p) ↦ elim (Result-cases (position_to_byte text range.stop)) [
        | inr (e, q) ↦ position_to_byte_panicked text range.stop (cc)
        | inl (stop, q) ↦ elim (Bool-cases (ltb stop start)) [
          | inl r ↦ cc
          | inr r ↦
              replace_range-boundaries start stop replacement text
                (position_to_byte-IsBoundary text range.start start p)
                (position_to_byte-IsBoundary text range.stop stop q) (cc)
        ]
      ]
    ]

replace_with_panicked :
    (replacement : Option Text) (range : Option Range) (text : Text)
    → replace_with replacement range text ≢ err panicked
replace_with_panicked none range text h = cc
replace_with_panicked (some replacement) range text h = replace_in_panicked replacement range text h

apply_changes_panicked :
    (changes : List Change) (text : Text) (t : Text)
    → apply_changes changes text ≢ (t, err panicked)
unfolding apply_changes apply_change
apply_changes_panicked [] text t h = cc
apply_changes_panicked (c ∷ changes) text t h =
    elim (Result-cases (replace_with c.text c.range text)) [
      | inl (x, e) ↦ apply_changes_panicked changes x t (cc)
      | inr (x, e) ↦ replace_with_panicked c.text c.range text (cc)
    ]

finish_change_panicked :
    (uri : Text) (old version : ℤ) (docs after : Documents) (changes : List Change) (text t : Text)
    (m : Result EditError (Unit {0}))
    → apply_changes changes text ≡ (t, m)
    → finish_change uri old version docs (t, m) ≢ (after, err panicked)
finish_change_panicked uri old version docs after changes text t (ok done) e h = cc
finish_change_panicked uri old version docs after changes text t (err x) e h =
    apply_changes_panicked changes text t (cc)

apply_changes-append :
    (good rest : List Change) (text t : Text)
    → apply_changes good text ≡ (t, ok tt)
    → apply_changes (good ++ rest) text ≡ apply_changes rest t
unfolding apply_changes
apply_changes-append [] rest text t h = cc
apply_changes-append (c ∷ good) rest text t h = elim (Result-cases (apply_change c text)) [
  | inl (x, e) ↦ rw e (apply_changes-append good rest x t (cc))
  | inr (x, e) ↦ cc
]

module _ (uri : Text) (version old : ℤ) (text : Text) (docs : Documents)
    (opened : lookup uri docs ≡ some (record { version = old; text = text }))
    (newer : version_at_most version old ≡ false) where
  change-finish_change :
      (changes : List Change)
      → change uri version changes docs
        ≡ finish_change uri old version docs (apply_changes changes text)
  unfolding change
  change-finish_change changes = rw (opened, newer) refl

-- The change that an editor sends for a replacement between two places.
abbrev pub edit_between : Text → Text → Text → Text → Change
edit_between before removed after replacement =
    let all = before ++ removed ++ after in
    record {
      text = some replacement;
      range = some (record {
        start = offset_to_position all (units before);
        stop = offset_to_position all (units (before ++ removed));
      });
    }

abbrev pub at_version : ℤ → Text → Document
at_version version text = record { version = version; text = text }

position_to_byte-start :
    (before removed after : Text)
    → position_to_byte
        (before ++ removed ++ after)
        (offset_to_position (before ++ removed ++ after) (units before))
      ≡ ok (bytes before)
position_to_byte-start before removed after =
    rw (append_assoc before removed after) (position_to_byte-offset before (removed ++ after))

position_to_byte-stop :
    (before removed after : Text)
    → position_to_byte
        (before ++ removed ++ after)
        (offset_to_position (before ++ removed ++ after) (units (before ++ removed)))
      ≡ ok (bytes before + bytes removed)
position_to_byte-stop before removed after =
    position_to_byte-offset (before ++ removed) after ∙ ap ok (bytes-append before removed)

replace_range-between :
    (before removed after replacement : Text)
    → replace_range
        (bytes before)
        (bytes before + bytes removed)
        replacement
        (before ++ removed ++ after)
      ≡ ok (before ++ replacement ++ after)
replace_range-between before removed after replacement = cc (
  take_bytes-append before (removed ++ after),
  drop_bytes-append (before ++ removed) after,
  append_assoc before removed after,
  bytes-append before removed,
)

replace_in-found :
    (sent : Option Range) (range : Range) (replacement text : Text) (start stop : ℕ)
    → sent ≡ some range
    → position_to_byte text range.start ≡ ok start
    → position_to_byte text range.stop ≡ ok stop
    → ltb stop start ≡ false
    → replace_in replacement sent text ≡ replace_range start stop replacement text
replace_in-found sent range replacement text start stop e h k l = rw (e, h, k, l) refl

apply_change-edit_between :
    (before removed after replacement : Text)
    → apply_change (edit_between before removed after replacement) (before ++ removed ++ after)
      ≡ ok (before ++ replacement ++ after)
unfolding apply_change
apply_change-edit_between before removed after replacement =
    replace_in-found (edit_between before removed after replacement).range _ replacement
      (before ++ removed ++ after) (bytes before) (bytes before + bytes removed) refl
      (position_to_byte-start before removed after) (position_to_byte-stop before removed after)
      (ground arith)
    ∙ replace_range-between before removed after replacement

-- A change in place: the characters between two places of the text, whose positions are sent, are
-- replaced, and all before and behind them stays, whatever the lines and the widths of the
-- characters; the document has the new version.
pub change-replaces :
    (uri before removed after replacement : Text) (version old : ℤ) (docs : Documents)
    → lookup uri docs ≡ some (at_version old (before ++ removed ++ after))
    → version_at_most version old ≡ false
    → change uri version (edit_between before removed after replacement ∷ []) docs ≡ (
      map_insert uri (at_version version (before ++ replacement ++ after)) docs,
      ok (at_version version (before ++ replacement ++ after)),
    )
change-replaces uri before removed after replacement version old docs opened newer =
    rw
      (change-finish_change uri version old (before ++ removed ++ after) docs opened newer
        (edit_between before removed after replacement ∷ []))
      (unfold apply_changes in rw (apply_change-edit_between before removed after replacement) refl)

-- Whatever the changes are, a change of a document never replaces inside a character or past the
-- end of the text, which would panic.
pub change_panicked :
    (uri : Text) (version : ℤ) (changes : List Change) (docs after : Documents)
    → change uri version changes docs ≢ (after, err panicked)
unfolding change
change_panicked uri version changes docs after h = elim (Option-cases (lookup uri docs)) [
  | inl e ↦ cc
  | inr (document, e) ↦ elim (Bool-cases (version_at_most version document.version)) [
    | inl r ↦ cc
    | inr r ↦
        finish_change_panicked uri document.version version docs after changes document.text
          (apply_changes changes document.text).0 (apply_changes changes document.text).1 refl (cc)
  ]
]

-- A change that fails in the middle: the text keeps the changes before the one that failed, with
-- the version it had.
pub change-keeps :
    (uri text kept : Text) (version old : ℤ) (docs : Documents) (done rest : List Change)
    (bad : Change) (e : EditError)
    → lookup uri docs ≡ some (record { version = old; text = text })
    → version_at_most version old ≡ false
    → apply_changes done text ≡ (kept, ok tt)
    → apply_change bad kept ≡ err e
    → change uri version (done ++ bad ∷ rest) docs
      ≡ (map_insert uri (record { version = old; text = kept }) docs, err e)
change-keeps uri text kept version old docs done rest bad e opened newer applied failed =
    rw
      (
        change-finish_change uri version old text docs opened newer (done ++ bad ∷ rest),
        apply_changes-append done (bad ∷ rest) text kept applied,
      )
      (unfold apply_changes in rw failed refl)
