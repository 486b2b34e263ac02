-- ===== src/Core/Pipeline/Chunks.antt =====
-- The outcome of `scan_files` does not depend on the chunks.
use mathlib.Core.List.{append_assoc, append-nil, map-append}
use session_scope.Common.{
  ℕ, zero, suc, ◌+◌, ◌≤◌, ◌<◌, String, ◌≡◌, refl, sym, ◌∙◌, ap, Bool, true, Option, List, [], ◌∷◌,
  ◌++◌, map, arith, length, take, drop, min,
}
use session_scope.Common.Lists.{flat_map, length-drop}
use session_scope.Model.Report.{FileScanResult}
use session_scope.Core.Pipeline.Config.{ScanConfig}
use session_scope.Core.Pipeline.Workers.{
  chunk_size, worker_count, chunks_on, chunks, u32_max, saturating_add, ScanFilesOutcome, caught,
  panics, work, joined, idle, join_all, scan_files,
}

take-drop : (n : ℕ) (xs : List String) → take n xs ++ drop n xs ≡ xs
take-drop zero xs = refl
take-drop (suc n) [] = refl
take-drop (suc n) (x ∷ xs) = ap (λ l. x ∷ l) (take-drop n xs)

abbrev flatten : List (List String) → List String
flatten = flat_map (λ (c : List String). c)

-- The chunks of a size above zero, one after the other, are the files.
flatten-chunks_on :
    (fuel size : ℕ) (files : List String)
    → 0 < size
    → length files ≤ fuel
    → flatten (chunks_on fuel size files) ≡ files
unfolding chunks_on
flatten-chunks_on zero size [] p h = refl
flatten-chunks_on zero size (f ∷ fs) p h = absurd (omega (arith, h))
flatten-chunks_on (suc fuel) size [] p h = refl
flatten-chunks_on (suc fuel) size (f ∷ fs) p h =
    ap (λ l. take size (f ∷ fs) ++ l)
      (flatten-chunks_on fuel size (drop size (f ∷ fs)) p
        (omega (arith, length-drop size (f ∷ fs))))
    ∙ take-drop size (f ∷ fs)

chunk_size-positive : (n w : ℕ) → 0 < chunk_size n w
unfolding chunk_size
chunk_size-positive n w = ground arith

module _ (config : ScanConfig) (scan : String → Option FileScanResult) where
  abbrev pub result_for : String → FileScanResult
  result_for path = caught config scan path (scan path)

  abbrev pub panics_in : List String → ℕ
  panics_in [] = 0
  panics_in (p ∷ ps) = panics config scan (scan p) + panics_in ps

  panics_in-append : (ps qs : List String) → panics_in (ps ++ qs) ≡ panics_in ps + panics_in qs
  panics_in-append [] qs = omega arith
  panics_in-append (p ∷ ps) qs = omega (arith, panics_in-append ps qs)

  work-results :
      (ps : List String) (local : ScanFilesOutcome)
      → (work config scan ps local).results ≡ local.results ++ map result_for ps
  unfolding work
  work-results [] local = sym (append-nil local.results)
  work-results (p ∷ ps) local =
      work-results ps _ ∙ append_assoc local.results (result_for p ∷ []) (map result_for ps)

  work-panics :
      (ps : List String) (local : ScanFilesOutcome)
      → local.worker_panic_count ≤ u32_max
      → (work config scan ps local).worker_panic_count
        ≡ min (local.worker_panic_count + panics_in ps) u32_max
  unfolding work
  work-panics [] local h = omega (arith, h)
  work-panics (p ∷ ps) local h =
      let step : ScanFilesOutcome = record {
        results = local.results ++ result_for p ∷ [];
        worker_panic_count = saturating_add local.worker_panic_count (panics config scan (scan p));
      } in
      let rest = work-panics ps step (omega arith) in omega (arith, rest)

  join_all-results :
      (survives : ℕ → Bool) (n : ℕ) (cs : List (List String)) (total : ScanFilesOutcome)
      → ((k : ℕ) → survives k ≡ true)
      → (join_all config scan survives n cs total).results
        ≡ total.results ++ map result_for (flatten cs)
  unfolding join_all
  join_all-results survives n [] total s = sym (append-nil total.results)
  join_all-results survives n (c ∷ cs) total s =
      let local = work config scan c (idle config scan) in
      let next = joined config scan true local total in
      ap
        (λ b. (join_all config scan survives (suc n) cs (joined config scan b local total)).results)
        (s n)
      ∙ (join_all-results survives (suc n) cs next s
          ∙ (ap (λ l. (total.results ++ l) ++ map result_for (flatten cs))
                (work-results c (idle config scan))
              ∙ (append_assoc total.results (map result_for c) (map result_for (flatten cs))
                  ∙ ap (λ l. total.results ++ l) (sym (map-append result_for c (flatten cs))))))

  join_all-panics :
      (survives : ℕ → Bool) (n : ℕ) (cs : List (List String)) (total : ScanFilesOutcome)
      → ((k : ℕ) → survives k ≡ true)
      → total.worker_panic_count ≤ u32_max
      → (join_all config scan survives n cs total).worker_panic_count
        ≡ min (total.worker_panic_count + panics_in (flatten cs)) u32_max
  unfolding join_all
  join_all-panics survives n [] total s h = omega (arith, h)
  join_all-panics survives n (c ∷ cs) total s h =
      let local = work config scan c (idle config scan) in
      let next = joined config scan true local total in
      let rest = join_all-panics survives (suc n) cs next s (omega arith) in
      let own = work-panics c (idle config scan) (omega arith) in
      let both = panics_in-append c (flatten cs) in
      ap
        (λ b.
          (join_all config scan survives (suc n) cs
            (joined config scan b local total)).worker_panic_count)
        (s n)
      ∙ (rest ∙ omega (arith, own, both, h))

  -- When no worker dies outside the catching of panics, the results of `scan_files` are those of
  -- the files one by one in their order, a panic of a scan giving a skipped file, and the panic
  -- count is the number of panicking scans, saturated at 2 ^ 32 - 1, whatever the parallelism.
  pub scan_files-map :
      (parallelism : Option ℕ) (survives : ℕ → Bool) (files : List String)
      → ((k : ℕ) → survives k ≡ true)
      → ((scan_files config scan parallelism survives files).results ≡ map result_for files)
        × ((scan_files config scan parallelism survives files).worker_panic_count
            ≡ min (panics_in files) u32_max)
  unfolding scan_files chunks
  scan_files-map parallelism survives files s =
      let size = chunk_size (length files) (worker_count parallelism) in
      let whole =
        flatten-chunks_on (length files) size files
          (chunk_size-positive (length files) (worker_count parallelism)) (omega arith) in
      (
        join_all-results survives 0 (chunks size files) (idle config scan) s
            ∙ ap (map result_for) whole,
        join_all-panics survives 0 (chunks size files) (idle config scan) s (omega arith)
            ∙ omega (arith, ap panics_in whole),
      )
