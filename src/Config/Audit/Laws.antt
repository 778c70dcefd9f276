-- ===== src/Config/Audit/Laws.antt =====
-- crates/jman-config/src/lib.rs: what `validate_audit` accepts, exactly.
use jman.Base.{ℕ, Text, text_eq, Bool, true, List, [], ◌∷◌, ◌&&◌, not, contains, arith, ◌≡◌, refl}
use jman.Config.Error.{accepted}
use jman.Config.Dates.{is_iso_date}
use jman.Config.Audit.{AuditSuppression, is_blank, check_suppressions, validate_audit}

module _ (is_whitespace : ℕ → Bool) where
  abbrev pub is_sound : AuditSuppression → Bool
  is_sound s =
      not (is_blank is_whitespace s.id)
      && not (is_blank is_whitespace s.reason)
      && is_iso_date s.expires

  -- Sound suppressions with identifiers that are new and differ from one another.
  abbrev pub are_sound : List Text → List AuditSuppression → Bool
  are_sound seen [] = true
  are_sound seen (s ∷ more) = is_sound s && not (contains seen s.id) && are_sound (s.id ∷ seen) more

  accepted-suppressions :
      (seen : List Text) (ss : List AuditSuppression)
      → accepted (check_suppressions is_whitespace seen ss) ≡ are_sound seen ss
  unfolding check_suppressions
  accepted-suppressions seen [] = refl
  accepted-suppressions seen (s ∷ ss) = ground (arith, accepted-suppressions (s.id ∷ seen) ss)

  -- Suppressions are accepted exactly when each has an identifier, a reason and an expiry date that
  -- passes the date test, and no identifier stands twice.
  pub accepted-validate_audit :
      (ss : List AuditSuppression) → accepted (validate_audit is_whitespace ss) ≡ are_sound [] ss
  unfolding validate_audit
  accepted-validate_audit ss = accepted-suppressions [] ss
