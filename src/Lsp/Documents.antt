-- ===== src/Lsp/Documents.antt =====
-- crates/jman-java-lsp/src/documents.rs: the open documents and their changes. The store is the
-- association list of the open documents, and a change is what the code reads of its JSON.
pub mod Applied
pub mod Laws
use jman.Base.{
  ℕ, zero, suc, ◌+◌, ◌-◌, Text, Bool, Option, none, some, List, [], ◌∷◌, ◌++◌, ok, err, Result,
  ◌=ℕ=◌, ltb, leb, true, false, if◌then◌else◌, lookup, map_insert, map_remove, ◌>>=◌,
}
use jman.Lsp.Positions.{
  EditError, not_open, not_newer, no_text, reversed, panicked, Position, len_utf8, position_to_byte,
}

-- `i64`, the type of a version.
pub data ℤ : Type 0 where
  pos negsuc : ℕ → ℤ

abbrev pub version_at_most : ℤ → ℤ → Bool
version_at_most (pos a) (pos b) = leb a b
version_at_most (pos a) (negsuc b) = false
version_at_most (negsuc a) (pos b) = true
version_at_most (negsuc a) (negsuc b) = leb b a

pub record Document : Type 0 where
  pub version : ℤ
  pub text : Text

abbrev pub Documents : Type 0
Documents = List (Text × Document)

pub record Range : Type 0 where
  pub start : Position
  pub stop : Position

pub record Change : Type 0 where
  pub text : Option Text
  pub range : Option Range

abbrev pub open_document : Text → ℤ → Text → Documents → Documents
open_document uri version text docs =
    map_insert uri (record { version = version; text = text }) docs

-- The first bytes of a text, and the text behind them; none inside a character or past the end.
unfoldable pub take_bytes : ℕ → Text → Option Text
take_bytes n [] = if n =ℕ= 0 then some [] else none
take_bytes n (c ∷ s) =
    let rest = take_bytes (n - len_utf8 c) s in
    if n =ℕ= 0
    then some []
    else if ltb n (len_utf8 c)
    then none
    else elim rest [ none ↦ none | some t ↦ some (c ∷ t) ]

unfoldable pub drop_bytes : ℕ → Text → Option Text
drop_bytes n [] = if n =ℕ= 0 then some [] else none
drop_bytes n (c ∷ s) =
    let rest = drop_bytes (n - len_utf8 c) s in
    if n =ℕ= 0 then some (c ∷ s) else if ltb n (len_utf8 c) then none else rest

-- `String::replace_range`, which panics at an offset that is no boundary.
abbrev pub put_between : Option Text → Text → Option Text → Result EditError Text
put_between none replacement after = err panicked
put_between (some before) replacement none = err panicked
put_between (some before) replacement (some after) = ok (before ++ replacement ++ after)

abbrev pub replace_range : ℕ → ℕ → Text → Text → Result EditError Text
replace_range start stop replacement text =
    put_between (take_bytes start text) replacement (drop_bytes stop text)

abbrev pub replace_in : Text → Option Range → Text → Result EditError Text
replace_in replacement none text = ok replacement
replace_in replacement (some range) text = do
  start ← position_to_byte text range.start
  stop ← position_to_byte text range.stop
  if ltb stop start then err reversed else replace_range start stop replacement text

abbrev pub replace_with : Option Text → Option Range → Text → Result EditError Text
replace_with none range text = err no_text
replace_with (some replacement) range text = replace_in replacement range text

-- The body of the loop of `change`.
unfoldable pub apply_change : Change → Text → Result EditError Text
unfolding take_bytes drop_bytes position_to_byte
apply_change change text = replace_with change.text change.range text

-- The loop works on the stored text, which an error leaves as it is then.
abbrev pub continue_with :
    (Text → Text × Result EditError (Unit {0}))
    → Text
    → Result EditError Text
    → Text × Result EditError (Unit {0})
continue_with rest text (err e) = (text, err e)
continue_with rest text (ok changed) = rest changed

unfoldable pub apply_changes : List Change → Text → Text × Result EditError (Unit {0})
apply_changes [] text = (text, ok tt)
apply_changes (c ∷ changes) text = continue_with (apply_changes changes) text (apply_change c text)

abbrev pub finish_change :
    Text
    → ℤ
    → ℤ
    → Documents
    → Text × Result EditError (Unit {0})
    → Documents × Result EditError Document
finish_change uri old version docs (text, err e) =
    (map_insert uri (record { version = old; text = text }) docs, err e)
finish_change uri old version docs (text, ok done) =
    let document : Document = record { version = version; text = text } in
    (map_insert uri document docs, ok document)

abbrev change_found :
    Text → ℤ → List Change → Documents → Option Document → Documents × Result EditError Document
change_found uri version changes docs none = (docs, err not_open)
change_found uri version changes docs (some document) =
    let changed =
      finish_change uri document.version version docs (apply_changes changes document.text) in
    if version_at_most version document.version then (docs, err not_newer) else changed

unfoldable pub change : Text → ℤ → List Change → Documents → Documents × Result EditError Document
unfolding apply_changes apply_change
change uri version changes docs = change_found uri version changes docs (lookup uri docs)

abbrev pub get : Text → Documents → Option Document
get uri docs = lookup uri docs

abbrev pub close : Text → Documents → Documents × Option Document
close uri docs = (map_remove uri docs, lookup uri docs)
