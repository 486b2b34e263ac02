-- ===== src/Core/Source.antt =====
-- crates/sessionscope-core/src/source.rs: the checked reading of a source. What the system answers
-- is a parameter; a second look at a path may find another file there.
pub mod Endings
pub mod Contained
mod Tests
use Prim.Native.Char.{Char, code}
use session_scope.Common.{
  ℕ, String, Bool, true, false, ◌||◌, ◌&&◌, Option, none, some, List, ◌⊎◌, inl, inr, ◌==◌, nat_eq,
  eqb, ltb, contains, if◌then◌else◌, length,
}
use session_scope.Common.Text.{replace_char}
use session_scope.Model.Report.{SkippedReason}
use session_scope.Core.Pipeline.Config.{strip_root}

-- The label of an `io::ErrorKind`.
abbrev pub ErrorKind : Type 0
ErrorKind = String

-- `()`
abbrev pub Done : Type 0
Done = Unit

pub data FileType : Type 0 where
  regular symlink other : FileType

-- What an open file answers: its size, the first `read` of at most 8192 bytes, the `seek` to its
-- start, the bytes that `take` and `read_to_end` yield for a limit, and how many bytes a further
-- `read` of one byte yields.
pub record OpenFile : Type 0 where
  pub size : ErrorKind ⊎ ℕ
  pub prefix : ErrorKind ⊎ List ℕ
  pub rewind : ErrorKind ⊎ Done
  pub body : ℕ → ErrorKind ⊎ List ℕ
  pub overflow : ErrorKind ⊎ ℕ

pub data Moment : Type 0 where
  before_open after_open : Moment

pub record FileSystem : Type 0 where
  pub symlink_metadata : Moment → String → ErrorKind ⊎ FileType
  pub canonicalize : Moment → String → ErrorKind ⊎ String
  pub open_file : String → ErrorKind ⊎ OpenFile
  pub from_utf8 : List ℕ → Option String

-- The `?` of Rust on a result with a reason, and on one with an error of the system.
abbrev pub and_then :
    {A B : Type 0} → SkippedReason ⊎ A → (A → SkippedReason ⊎ B) → SkippedReason ⊎ B
and_then (inl reason) f = inl reason
and_then (inr a) f = f a

unfoldable pub io_kind_skipped_reason : ErrorKind → SkippedReason
io_kind_skipped_reason error = SkippedReason.read_error error

unfoldable pub or_read_error : {A : Type 0} → ErrorKind ⊎ A → SkippedReason ⊎ A
unfolding io_kind_skipped_reason
or_read_error (inl error) = inl (io_kind_skipped_reason error)
or_read_error (inr a) = inr a

abbrev pub is_some : {A : Type 0} → Option A → Bool
is_some none = false
is_some (some a) = true

-- `Path::starts_with`, by whole components.
unfoldable pub starts_with : String → String → Bool
unfolding strip_root
starts_with path root = is_some (strip_root root path)

-- `str::contains` of a character.
unfoldable pub contains_code : ℕ → String → Bool
contains_code n String.[] = false
contains_code n (String.◌∷◌ c s) = eqb (code c) n || contains_code n s

-- `str::replace` of `\r\n` by `\n`.
unfoldable pub replace_crlf : String → String
replace_crlf String.[] = String.[]
replace_crlf (String.◌∷◌ c String.[]) = String.◌∷◌ c String.[]
replace_crlf (String.◌∷◌ c (String.◌∷◌ d s)) =
    let paired = replace_crlf s in
    let single = replace_crlf (String.◌∷◌ d s) in
    if eqb (code c) 13 && eqb (code d) 10 then String.◌∷◌ d paired else String.◌∷◌ c single

unfoldable pub normalize_line_endings : String → String
unfolding contains_code replace_crlf replace_char
normalize_line_endings source =
    if contains_code 13 source then replace_char 13 "\n" (replace_crlf source) else source

module _ (fs : FileSystem) (path : String) where
  unfoldable pub check_root : Moment → Option String → SkippedReason ⊎ Done
  unfolding or_read_error starts_with
  check_root moment none = inr tt
  check_root moment (some root) =
      and_then (or_read_error (fs.canonicalize moment path))
        (λ canonical. if starts_with canonical root then inr tt else inl SkippedReason.symlink)

  unfoldable pub check_type : Moment → Option String → FileType → SkippedReason ⊎ Done
  unfolding check_root
  check_type moment root FileType.symlink = inl SkippedReason.symlink
  check_type moment root FileType.other = inl SkippedReason.unsupported
  check_type moment root FileType.regular = check_root moment root

  unfoldable pub validate_source_path : Moment → Option String → SkippedReason ⊎ Done
  unfolding or_read_error check_type
  validate_source_path moment root =
      and_then (or_read_error (fs.symlink_metadata moment path)) (check_type moment root)

  unfoldable pub decode : List ℕ → SkippedReason ⊎ String
  unfolding normalize_line_endings
  decode bytes = elim (fs.from_utf8 bytes) [
    | none ↦ inl (SkippedReason.read_error "invalid data")
    | some source ↦ inr (normalize_line_endings source)
  ]

  -- The probe for a byte behind the limit.
  unfoldable pub check_overflow : ℕ → OpenFile → List ℕ → SkippedReason ⊎ Done
  unfolding or_read_error
  check_overflow limit file bytes =
      if length bytes == limit
      then and_then (or_read_error file.overflow)
          (λ n. if n == 0 then inr tt else inl SkippedReason.too_large)
      else inr tt

  unfoldable pub read_body : ℕ → OpenFile → SkippedReason ⊎ String
  unfolding or_read_error check_overflow decode
  read_body limit file = and_then (or_read_error file.rewind) (λ start.
      and_then (or_read_error (file.body limit))
        (λ bytes. and_then (check_overflow limit file bytes) (λ within. decode bytes)))

  unfoldable pub read_open_file : ℕ → OpenFile → SkippedReason ⊎ String
  unfolding or_read_error read_body
  read_open_file limit file = and_then (or_read_error file.size) (λ size.
      if ltb limit size
      then inl SkippedReason.too_large
      else and_then (or_read_error file.prefix)
          (λ prefix. if contains prefix 0 then inl SkippedReason.binary else read_body limit file))

  unfoldable pub read_source_checked : ℕ → Option String → SkippedReason ⊎ String
  unfolding or_read_error validate_source_path read_open_file
  read_source_checked limit root =
      and_then (validate_source_path Moment.before_open root) (λ before.
        and_then (or_read_error (fs.open_file path)) (λ file.
          and_then (validate_source_path Moment.after_open root)
            (λ after. read_open_file limit file)))

  unfoldable pub read_source : ℕ → SkippedReason ⊎ String
  unfolding read_source_checked
  read_source limit = read_source_checked limit none

  unfoldable pub read_source_under_root : ℕ → String → SkippedReason ⊎ String
  unfolding read_source_checked
  read_source_under_root limit canonical_root = read_source_checked limit (some canonical_root)
