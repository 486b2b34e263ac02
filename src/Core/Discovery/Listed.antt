-- ===== src/Core/Discovery/Listed.antt =====
-- Which entries of a walk are files to scan, and that the other candidates are skipped.
use session_scope.Common.{
  ◌+◌, String, ◌≡◌, refl, sym, subst, ◌↔◌, ◌⊎◌, inl, inr, Bool, false, Option, none, some, List, [],
  ◌∷◌, length, arith, Bool-cases, if◌then◌else◌, length-append,
}
use session_scope.Common.Lists.{IsIn, keep, IsIn-append}
use session_scope.Common.Result.{Result, ok, err, bind_ok, ok-injective}
use session_scope.Common.Sorting.{IsIn-sort_by, length-sort_by}
use session_scope.Model.Report.{FileScanResult}
use session_scope.Core.Pipeline.Config.{ScanConfig}
use session_scope.Core.Pipeline.Scan.{DiscoveryResult, compare_path}
use session_scope.Core.Discovery.Paths.{DirEntry, Tree, compile_globs}
use session_scope.Core.Discovery.Files.{
  GlobSets, filter_entry, visit, push, visit_all, sort_result, discover_files, compare_key,
}
use session_scope.Core.Discovery.Accepted.{
  is_candidate, IsListed, visit-IsListed, visit-is_candidate,
}

module _ (tree : Tree) (config : ScanConfig) where
  module _ (globs : GlobSets) where
    same_entry : (d e : DirEntry) → ok d ≡ ok e → d ≡ e
    same_entry d e h = ground arith

    length-keep_cons :
        (x : Result DirEntry) (xs : List (Result DirEntry))
        → length (keep (is_candidate tree config) (x ∷ xs))
          ≡ (if is_candidate tree config x then 1 else 0)
            + length (keep (is_candidate tree config) xs)
    length-keep_cons x xs = elim (Bool-cases (is_candidate tree config x)) [
      | inl h ↦ rw h (omega arith)
      | inr h ↦ rw h (omega arith)
    ]

    ok_files : (d e : DiscoveryResult) → ok d ≡ ok e → e.files ≡ d.files
    ok_files d e h = ground arith

    push-files :
        (path : String) (v : Option (FileScanResult ⊎ String)) (d : DiscoveryResult)
        → IsIn path (push tree config globs v d).files ↔ (IsIn path d.files ⊎ (v ≡ some (inr path)))
    unfolding push
    push-files path none d = ground arith
    push-files path (some (inl result)) d = ground arith
    push-files path (some (inr p)) d = ground (arith, IsIn-append path d.files (p ∷ []))

    push-counts :
        (v : Option (FileScanResult ⊎ String)) (d : DiscoveryResult) (counted : Bool)
        → (v ≡ none) ↔ (counted ≡ false)
        → length (push tree config globs v d).files + length (push tree config globs v d).skipped
          ≡ length d.files + length d.skipped + (if counted then 1 else 0)
    unfolding push
    push-counts none d counted h = ground arith
    push-counts (some (inl result)) d counted h =
        ground (arith, length-append d.skipped (result ∷ []))
    push-counts (some (inr p)) d counted h = ground (arith, length-append d.files (p ∷ []))

    -- The entries are visited up to the first that is an error.
    visit_all-files :
        (path : String) (entries : List (Result DirEntry)) (d e : DiscoveryResult)
        → visit_all tree config globs entries d ≡ ok e
        → IsIn path e.files ↔ (
            IsIn path d.files
            ⊎ ((entry : DirEntry) × IsIn (ok entry) entries
                × IsListed tree config globs entry
                × (entry.path ≡ path)))
    unfolding visit_all
    visit_all-files path [] d e h =
        let same = ok_files d e h in
        rw same (λ m. inl m, λ x. elim x [ inl m ↦ m | inr (a, i, l, same) ↦ elim i [ ] ])
    visit_all-files path (err message ∷ entries) d e h = ground arith
    visit_all-files path (ok entry ∷ entries) d e h =
        let later =
          visit_all-files path entries (push tree config globs (visit tree config globs entry) d) e
            h in
        let here = push-files path (visit tree config globs entry) d in
        let listed = visit-IsListed tree config globs entry path in
        (
          λ m. elim (later.0 m) [
            | inl x ↦ elim (here.0 x) [
              | inl before ↦ inl before
              | inr now ↦ let (l, same) = listed.0 now in inr (entry, inl refl, l, same)
            ]
            | inr (other, i, l, same) ↦ inr (other, inr i, l, same)
          ],
          λ x. elim x [
            | inl before ↦ later.1 (inl (here.1 (inl before)))
            | inr (other, inl i, l, same) ↦ later.1 (
                inl (
                  here.1 (
                    inr (
                      listed.1 (
                        subst (λ (x : DirEntry). IsListed tree config globs x × (x.path ≡ path))
                          (same_entry other entry i) (l, same))))))
            | inr (other, inr i, l, same) ↦ later.1 (inr (other, i, l, same))
          ],
        )

    visit_all-counts :
        (entries : List (Result DirEntry)) (d e : DiscoveryResult)
        → visit_all tree config globs entries d ≡ ok e
        → length e.files + length e.skipped
          ≡ length d.files + length d.skipped + length (keep (is_candidate tree config) entries)
    unfolding visit_all
    visit_all-counts [] d e h = ground arith
    visit_all-counts (err message ∷ entries) d e h = ground arith
    visit_all-counts (ok entry ∷ entries) d e h =
        let pushed = push tree config globs (visit tree config globs entry) d in
        let later = visit_all-counts entries pushed e h in
        let here =
          push-counts (visit tree config globs entry) d (is_candidate tree config (ok entry))
            (visit-is_candidate tree config globs entry) in
        let added = length-keep_cons (ok entry) entries in omega arith

  -- The globs of the configuration compile to these.
  pub record IsCompiled (globs : GlobSets) : Type 0 where
    pub includes : compile_globs tree config.include_patterns ≡ ok globs.include_globs
    pub excludes : compile_globs tree config.exclude_patterns ≡ ok globs.exclude_globs
    pub sensitives : compile_globs tree config.sensitive_patterns ≡ ok globs.sensitive_globs

  -- What a discovery that succeeds has gone through.
  pub discover_files-ok :
      (found : DiscoveryResult)
      → discover_files tree config ≡ ok found
      → (globs : GlobSets) × IsCompiled globs
        × (visited : DiscoveryResult) × (visit_all tree config globs
              (tree.walk (filter_entry tree config))
              (record { files = []; skipped = [] })
            ≡ ok visited)
        × (sort_result tree config visited ≡ found)
  unfolding discover_files
  discover_files-ok found h =
      let (include_globs, includes, h1) =
        bind_ok (compile_globs tree config.include_patterns) _ h in
      let (exclude_globs, excludes, h2) =
        bind_ok (compile_globs tree config.exclude_patterns) _ h1 in
      let (sensitive_globs, sensitives, h3) =
        bind_ok (compile_globs tree config.sensitive_patterns) _ h2 in
      let globs : GlobSets = record {
        include_globs = include_globs;
        exclude_globs = exclude_globs;
        sensitive_globs = sensitive_globs;
      } in
      let (visited, visits, h4) =
        bind_ok
          (visit_all tree config globs (tree.walk (filter_entry tree config))
            (record { files = []; skipped = [] }))
          _ h3 in
      (
        globs,
        record { includes = includes; excludes = excludes; sensitives = sensitives },
        visited,
        visits,
        ok-injective (sort_result tree config visited) found h4,
      )

  -- When `discover_files` succeeds, the globs of the configuration compile, a path is among the
  -- files found exactly when it is that of an entry of the walk that is no symbolic link by
  -- either test, is a file, resolves inside the canonical root, lies below the root, is neither
  -- sensitive nor excluded, by pattern or directory, and is included; and the files found and
  -- those skipped are as many as the entries of the walk that are links or files.
  pub discover_files-IsListed :
      (found : DiscoveryResult)
      → discover_files tree config ≡ ok found
      → (globs : GlobSets) × IsCompiled globs
        × ((path : String)
            → IsIn path found.files ↔ (
                (entry : DirEntry) × IsIn (ok entry) (tree.walk (filter_entry tree config))
                × IsListed tree config globs entry
                × (entry.path ≡ path)))
        × (length found.files + length found.skipped
            ≡ length (keep (is_candidate tree config) (tree.walk (filter_entry tree config))))
  unfolding sort_result
  discover_files-IsListed found h =
      let (globs, compiled, visited, visits, sorted) = discover_files-ok found h in
      let entries = tree.walk (filter_entry tree config) in
      let nothing : DiscoveryResult = record { files = []; skipped = [] } in
      (
        globs,
        compiled,
        λ path.
            let visits_iff = visit_all-files globs path entries nothing visited visits in
            let sorts_iff = IsIn-sort_by (compare_key tree config) path visited.files in
            (
              λ m.
                  elim (visits_iff.0
                    (sorts_iff.0 (subst (λ d. IsIn path d.files) (sym sorted) m))) [
                      | inl none_yet ↦ elim none_yet [ ]
                      | inr e ↦ e
                    ],
              λ e. subst (λ d. IsIn path d.files) sorted (sorts_iff.1 (visits_iff.1 (inr e))),
            ),
        subst
            (λ d.
              length d.files + length d.skipped ≡ length (keep (is_candidate tree config) entries))
            sorted
            (omega (
              arith,
              length-sort_by (compare_key tree config) visited.files,
              length-sort_by compare_path visited.skipped,
              visit_all-counts globs entries nothing visited visits,
            )),
      )
