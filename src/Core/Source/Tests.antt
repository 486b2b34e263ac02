-- ===== src/Core/Source/Tests.antt =====
-- The reading of a file with Windows line endings.
use session_scope.Common.{◌≡◌, refl, ◌↔◌, inr, some, [], ◌∷◌}
use session_scope.Core.Source.{
  FileType, OpenFile, Moment, FileSystem, normalize_line_endings, read_source_under_root,
}
use session_scope.Core.Source.Contained.{IsContained, IsReadAs, read_source_under_root_iff}

abbrev windows : OpenFile
windows = record {
  size = inr 3;
  prefix = inr (97 ∷ 13 ∷ 10 ∷ []);
  rewind = inr tt;
  body = λ limit. inr (97 ∷ 13 ∷ 10 ∷ []);
  overflow = inr 0;
}

abbrev disk : FileSystem
disk = record {
  symlink_metadata = λ moment path. inr FileType.regular;
  canonicalize = λ moment path. inr path;
  open_file = λ path. inr windows;
  from_utf8 = λ bytes. some "a\r\n";
}

test_endings : normalize_line_endings "a\r\n\rb" ≡ "a\n\nb"
unfolding normalize_line_endings
test_endings = refl

read_source_under_root_iff_example :
    (read_source_under_root disk "/app/a.js" 512000 "/app" ≡ inr "a\n") ↔ (
      IsContained disk "/app/a.js" "/app" Moment.before_open
      × IsContained disk "/app/a.js" "/app" Moment.after_open
      × ((file : OpenFile) × (disk.open_file "/app/a.js" ≡ inr file)
          × IsReadAs disk "/app/a.js" 512000 file "a\n"))
read_source_under_root_iff_example = read_source_under_root_iff disk "/app/a.js" 512000 "/app" "a\n"
