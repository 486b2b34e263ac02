-- ===== src/Core/Pipeline/Labels.antt =====
-- What every result of `scan_file` has.
use mathlib.Core.Option.{some-injective}
use session_scope.Common.{
  String, ◌≡◌, refl, sym, ◌∙◌, subst, ◌≢◌, ◌⊎◌, inl, inr, true, false, Option, none, some, arith,
  ◌==◌, Bool-cases,
}
use session_scope.Common.Lists.{All}
use session_scope.Model.Report.{
  Language, language_eq, FileScanResult, SkippedReason, scanned, skipped,
}
use session_scope.Detectors.Registry.{DetectorRegistry, RunOutcome}
use session_scope.Core.Redaction.Values.{Regexes}
use session_scope.Core.Redaction.Sanitize.{sanitize_detection_output}
use session_scope.Core.Redaction.Budget.{InBudget, All-sanitize_evidence}
use session_scope.Core.Pipeline.Config.{ScanConfig, classify_language, display_path}
use session_scope.Core.Pipeline.File.{Surroundings, result_of, scan_source, scan_file}

module _ (rx : Regexes) (world : Surroundings) (config : ScanConfig)
    (registry : DetectorRegistry) where
  -- A file was scanned only if its language is known and it could be read.
  abbrev pub IsReadable : String → Option SkippedReason → Type 0
  IsReadable path (some reason) = Unit
  IsReadable path none =
      (classify_language path ≢ Language.unknown)
      × ((source : String) × (world.read_source path config.max_file_size_bytes
              config.canonical_root
            ≡ inr source))

  abbrev Labelled : String → FileScanResult → Type 0
  Labelled path r =
      (r.path ≡ display_path config path)
      × (r.language ≡ classify_language path)
      × All InBudget r.evidence

  result_of-Labelled :
      (path : String) (o : RunOutcome) (r : FileScanResult)
      → result_of rx world config registry path o ≡ some r
      → Labelled path r
  unfolding result_of sanitize_detection_output scanned skipped
  result_of-Labelled path (RunOutcome.completed output) r h =
      subst (Labelled path) (some-injective _ r h)
        (refl, refl, All-sanitize_evidence rx output.evidence)
  result_of-Labelled path RunOutcome.timed_out r h =
      subst (Labelled path) (some-injective _ r h) (refl, refl, tt)
  result_of-Labelled path RunOutcome.panicked r h = absurd (cc h)

  scan_source-Labelled :
      (path : String) (s : SkippedReason ⊎ String) (r : FileScanResult)
      → scan_source rx world config registry path s ≡ some r
      → Labelled path r
  unfolding scan_source skipped
  scan_source-Labelled path (inl reason) r h =
      subst (Labelled path) (some-injective _ r h) (refl, refl, tt)
  scan_source-Labelled path (inr source) r h = result_of-Labelled path _ r h

  scan_source-IsReadable :
      (path : String) (s : SkippedReason ⊎ String) (r : FileScanResult)
      → world.read_source path config.max_file_size_bytes config.canonical_root ≡ s
      → classify_language path ≢ Language.unknown
      → scan_source rx world config registry path s ≡ some r
      → IsReadable path r.skipped_reason
  unfolding scan_source skipped
  scan_source-IsReadable path (inl reason) r e known h =
      subst (λ (q : FileScanResult). IsReadable path q.skipped_reason) (some-injective _ r h) tt
  scan_source-IsReadable path (inr source) r e known h = readable r.skipped_reason
    where
      readable : (o : Option SkippedReason) → IsReadable path o
      readable none = (known, (source, e))
      readable (some reason) = tt

  abbrev read : String → SkippedReason ⊎ String
  read path = world.read_source path config.max_file_size_bytes config.canonical_root

  scan_file_unknown :
      (path : String)
      → (classify_language path == Language.unknown) ≡ true
      → scan_file rx world config registry path
        ≡ some
            (skipped (display_path config path) (classify_language path) SkippedReason.unsupported)
  unfolding scan_file
  scan_file_unknown path e = rw e refl

  scan_file_known :
      (path : String)
      → (classify_language path == Language.unknown) ≡ false
      → scan_file rx world config registry path
        ≡ scan_source rx world config registry path (read path)
  unfolding scan_file
  scan_file_known path e = rw e refl

  skipped-IsReadable :
      (path : String) (reason : SkippedReason) (r : FileScanResult)
      → some (skipped (display_path config path) (classify_language path) reason) ≡ some r
      → Labelled path r × IsReadable path r.skipped_reason
  unfolding skipped
  skipped-IsReadable path reason r h =
      subst (λ (q : FileScanResult). Labelled path q × IsReadable path q.skipped_reason)
        (some-injective _ r h) ((refl, refl, tt), tt)

  -- A result of `scan_file` has the displayed path and the language of the file, no excerpt of
  -- its evidence is over the default budget, and if it is not skipped, the language is known and
  -- the file could be read.
  pub scan_file-IsReadable :
      (path : String) (r : FileScanResult)
      → scan_file rx world config registry path ≡ some r
      → (r.path ≡ display_path config path)
        × (r.language ≡ classify_language path)
        × All InBudget r.evidence
        × IsReadable path r.skipped_reason
  scan_file-IsReadable path r h = elim (Bool-cases (classify_language path == Language.unknown)) [
    | inl unsupported ↦
        let ((p, l, e), ok') =
          skipped-IsReadable path _ r (sym (scan_file_unknown path unsupported) ∙ h) in
        (p, l, e, ok')
    | inr known ↦
        let h' = sym (scan_file_known path known) ∙ h in
        let (p, l, e) = scan_source-Labelled path (read path) r h' in
        (p, l, e, scan_source-IsReadable path (read path) r refl (ground arith) h')
  ]
