-- ===== src/Core/Source/Contained.antt =====
-- What a source that is read is: inside the root, within the limit, with unified line endings.
use session_scope.Common.{
  ℕ, String, ◌≡◌, refl, true, false, List, ◌⊎◌, inl, inr, arith, ◌≤◌, some, ltb, contains, length,
  nat_eq, Bool, Bool-cases, Option-cases, if◌then◌else◌, ◌==◌, ◌↔◌,
}
use session_scope.Common.Text.Laws.{Lacks}
use session_scope.Model.Report.{SkippedReason}
use session_scope.Core.Source.{
  and_then, ErrorKind, FileType, OpenFile, Moment, FileSystem, starts_with, validate_source_path,
  read_source_under_root, read_body, read_open_file, check_overflow, decode, or_read_error,
  check_type, check_root, read_source_checked,
}
use session_scope.Core.Source.Endings.{unified, unified-Lacks, normalize_line_endings-unified}

and_then-inr :
    {A B : Type 0} (x : SkippedReason ⊎ A) (f : A → SkippedReason ⊎ B) (b : B)
    → and_then x f ≡ inr b
    → (a : A) × (x ≡ inr a) × (f a ≡ inr b)
and_then-inr (inl reason) f b h = ground arith
and_then-inr (inr a) f b h = (a, refl, h)

or_read_error-inr : {A : Type 0} (x : ErrorKind ⊎ A) (a : A) → or_read_error x ≡ inr a → x ≡ inr a
unfolding or_read_error
or_read_error-inr (inl error) a h = ground arith
or_read_error-inr (inr b) a h = ground arith

-- The check of a limit or of a prefix is passed.
passed :
    {A : Type 0} (refused : Bool) (reason : SkippedReason) (rest : SkippedReason ⊎ A) {a : A}
    → (if refused then inl reason else rest) ≡ inr a
    → (refused ≡ false) × (rest ≡ inr a)
passed true reason rest h = ground arith
passed false reason rest h = (refl, h)

within_limit : (limit size : ℕ) → ltb limit size ≡ false → size ≤ limit
within_limit limit size h = ground arith

over_limit : (limit size : ℕ) → size ≤ limit → ltb limit size ≡ false
over_limit limit size h = ground arith

pass :
    {A : Type 0} (refused : Bool) (reason : SkippedReason) (rest : SkippedReason ⊎ A) {a : A}
    → refused ≡ false
    → rest ≡ inr a
    → (if refused then inl reason else rest) ≡ inr a
pass refused reason rest h k = rw h k

Sum-cases : {A B : Type 0} (x : A ⊎ B) → ((a : A) × (x ≡ inl a)) ⊎ ((b : B) × (x ≡ inr b))
Sum-cases (inl a) = inl (a, refl)
Sum-cases (inr b) = inr (b, refl)

and_then-made :
    {A B : Type 0} (x : SkippedReason ⊎ A) (f : A → SkippedReason ⊎ B) (a : A) (b : B)
    → x ≡ inr a
    → f a ≡ inr b
    → and_then x f ≡ inr b
and_then-made x f a b h k = rw h k

or_read_error-made : {A : Type 0} (x : ErrorKind ⊎ A) (a : A) → x ≡ inr a → or_read_error x ≡ inr a
unfolding or_read_error
or_read_error-made x a h = rw h refl

module _ (fs : FileSystem) (path : String) where
  -- The path is that of a regular file, and resolves inside the root.
  pub record IsContained (root : String) (moment : Moment) : Type 0 where
    pub resolved : String
    pub is_regular : fs.symlink_metadata moment path ≡ inr FileType.regular
    pub resolves : fs.canonicalize moment path ≡ inr resolved
    pub inside : starts_with resolved root ≡ true

  -- The open file is within the limit, has no zero byte in its prefix, and ends where its body does
  -- if that fills the limit.
  pub record IsReadAs (limit : ℕ) (file : OpenFile) (source : String) : Type 0 where
    pub size : ℕ
    pub prefix : List ℕ
    pub bytes : List ℕ
    pub text : String
    pub sized : file.size ≡ inr size
    pub fits : size ≤ limit
    pub begins : file.prefix ≡ inr prefix
    pub is_text : contains prefix 0 ≡ false
    pub rewound : file.rewind ≡ inr tt
    pub has_body : file.body limit ≡ inr bytes
    pub ends : length bytes ≡ limit → file.overflow ≡ inr 0
    pub decoded : fs.from_utf8 bytes ≡ some text
    pub is_source : source ≡ unified text
    pub no_return : Lacks 13 source

  validate-IsContained :
      (root : String) (moment : Moment)
      → validate_source_path fs path moment (some root) ≡ inr tt
      → IsContained root moment
  unfolding validate_source_path or_read_error check_type check_root
  validate-IsContained root moment h =
      let (type, known, typed) = and_then-inr _ _ _ h in
      regular_of type (or_read_error-inr _ _ known) typed
    where
      regular_of :
          (type : FileType)
          → fs.symlink_metadata moment path ≡ inr type
          → check_type fs path moment (some root) type ≡ inr tt
          → IsContained root moment
      regular_of FileType.symlink known h = ground arith
      regular_of FileType.other known h = ground arith
      regular_of FileType.regular known h =
          let (resolved, resolves, rest) = and_then-inr _ _ _ h in
          record {
            resolved = resolved;
            is_regular = known;
            resolves = or_read_error-inr _ _ resolves;
            inside = ground arith;
          }

  IsContained-validate :
      (root : String) (moment : Moment)
      → IsContained root moment
      → validate_source_path fs path moment (some root) ≡ inr tt
  unfolding validate_source_path or_read_error check_type check_root
  IsContained-validate root moment c = ground arith

  check_overflow_ends :
      (limit : ℕ) (file : OpenFile) (bytes : List ℕ)
      → (check_overflow fs path limit file bytes ≡ inr tt)
        ↔ (length bytes ≡ limit → file.overflow ≡ inr 0)
  unfolding check_overflow or_read_error
  check_overflow_ends limit file bytes = elim (Bool-cases (length bytes == limit)) [
    | inl full ↦ elim (Sum-cases file.overflow) [
      | inl (e, h) ↦ rw full (rw h (ground arith))
      | inr (n, h) ↦ rw full (rw h (ground arith))
    ]
    | inr short ↦ rw short (ground arith)
  ]

  decode_iff :
      (bytes : List ℕ) (source : String)
      → (decode fs path bytes ≡ inr source)
        ↔ ((text : String) × (fs.from_utf8 bytes ≡ some text) × (source ≡ unified text))
  unfolding decode
  decode_iff bytes source = elim (Option-cases (fs.from_utf8 bytes)) [
    | inl h ↦ rw h (ground arith)
    | inr (text, h) ↦ rw h (ground (arith, normalize_line_endings-unified text))
  ]

  read-IsReadAs :
      (limit : ℕ) (file : OpenFile) (source : String)
      → read_open_file fs path limit file ≡ inr source
      → IsReadAs limit file source
  unfolding read_open_file read_body
  read-IsReadAs limit file source h =
      let (size, sized, h1) = and_then-inr _ _ _ h in
      let (fits, h2) = passed _ _ _ h1 in
      let (prefix, begins, h3) = and_then-inr _ _ _ h2 in
      let (is_text, h4) = passed _ _ _ h3 in
      let (start, rewound, h5) = and_then-inr _ _ _ h4 in
      let (bytes, has_body, h6) = and_then-inr _ _ _ h5 in
      let (within, h7, h8) = and_then-inr _ _ _ h6 in
      let (text, decoded, is_source) = (decode_iff bytes source).0 h8 in
      record {
        size = size;
        prefix = prefix;
        bytes = bytes;
        text = text;
        sized = or_read_error-inr _ _ sized;
        fits = within_limit limit size fits;
        begins = or_read_error-inr _ _ begins;
        is_text = is_text;
        rewound = or_read_error-inr _ _ rewound;
        has_body = or_read_error-inr _ _ has_body;
        ends = (check_overflow_ends limit file bytes).0 h7;
        decoded = decoded;
        is_source = is_source;
        no_return = rw is_source (unified-Lacks text);
      }

  IsReadAs-read :
      (limit : ℕ) (file : OpenFile) (source : String)
      → IsReadAs limit file source
      → read_open_file fs path limit file ≡ inr source
  unfolding read_open_file read_body or_read_error
  IsReadAs-read limit file source r =
      let overflow = (check_overflow_ends limit file r.bytes).1 r.ends in
      let decoded = (decode_iff r.bytes source).1 (r.text, r.decoded, r.is_source) in
      and_then-made _ _ _ _ (or_read_error-made _ _ r.sized) (
        pass _ _ _ (over_limit limit r.size r.fits) (
          and_then-made _ _ _ _ (or_read_error-made _ _ r.begins) (
            pass _ _ _ r.is_text (
              and_then-made _ _ _ _ (or_read_error-made _ _ r.rewound) (
                and_then-made _ _ _ _ (or_read_error-made _ _ r.has_body)
                  (and_then-made _ _ _ _ overflow decoded))))))

  -- `read_source_under_root` yields a source exactly when the path is that of a regular file that
  -- resolves inside the root both before and after it is opened, and the open file has a size
  -- within the limit, no zero byte at its beginning, a body that does not go on behind the limit,
  -- and bytes that decode to a text, whose unified line endings, without any carriage return, are
  -- the source.
  pub read_source_under_root_iff :
      (limit : ℕ) (root source : String)
      → (read_source_under_root fs path limit root ≡ inr source) ↔ (
          IsContained root Moment.before_open
          × IsContained root Moment.after_open
          × ((file : OpenFile) × (fs.open_file path ≡ inr file) × IsReadAs limit file source))
  unfolding read_source_under_root read_source_checked
  read_source_under_root_iff limit root source = (
    λ h.
        let (before, valid, h1) = and_then-inr _ _ _ h in
        let (file, opened, h2) = and_then-inr _ _ _ h1 in
        let (after, still, h3) = and_then-inr _ _ _ h2 in
        (
          validate-IsContained root Moment.before_open valid,
          validate-IsContained root Moment.after_open still,
          (file, or_read_error-inr _ _ opened, read-IsReadAs limit file source h3),
        ),
    λ (b, a, (file, opened, r)).
        and_then-made _ _ _ _ (IsContained-validate root Moment.before_open b) (
          and_then-made _ _ _ _ (or_read_error-made _ _ opened) (
            and_then-made _ _ _ _ (IsContained-validate root Moment.after_open a)
              (IsReadAs-read limit file source r))),
  )
