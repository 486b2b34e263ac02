-- ===== src/Core/Pipeline/Workers.antt =====
-- `scan_files` of pipeline.rs: the files in chunks, a worker for each chunk. Panic counts are `u32`
-- values with saturating additions; the hook that silences a panic's message is not modelled.
use session_scope.Common.{
  ℕ, zero, suc, ◌+◌, ◌-◌, ◌/◌, ◌^◌, String, Bool, true, false, Option, none, some, List, [], ◌∷◌,
  ◌++◌, length, take, drop, min,
}
use session_scope.Model.Report.{FileScanResult, SkippedReason, skipped}
use session_scope.Core.Pipeline.Config.{ScanConfig, classify_language, display_path}

abbrev pub max_concurrent_file_workers : ℕ
max_concurrent_file_workers = 4

-- `available_parallelism`, when the system tells it, is not zero.
abbrev parallelism_or_one : Option ℕ → ℕ
parallelism_or_one none = 1
parallelism_or_one (some n) = n

unfoldable pub worker_count : Option ℕ → ℕ
worker_count parallelism = min (parallelism_or_one parallelism) max_concurrent_file_workers

abbrev at_least_one : ℕ → ℕ
at_least_one zero = 1
at_least_one (suc n) = suc n

-- `div_ceil`, then `max(1)`.
unfoldable pub chunk_size : ℕ → ℕ → ℕ
chunk_size files workers = at_least_one ((files + (workers - 1)) / workers)

-- `chunks(size)`; the number of elements is fuel enough for a size above zero.
unfoldable pub chunks_on : ℕ → ℕ → List String → List (List String)
chunks_on zero size files = []
chunks_on (suc fuel) size [] = []
chunks_on (suc fuel) size (f ∷ fs) = take size (f ∷ fs) ∷ chunks_on fuel size (drop size (f ∷ fs))

unfoldable pub chunks : ℕ → List String → List (List String)
unfolding chunks_on
chunks size files = chunks_on (length files) size files

abbrev pub u32_max : ℕ
u32_max = 2 ^ 32 - 1

abbrev pub saturating_add : ℕ → ℕ → ℕ
saturating_add m n = min (m + n) u32_max

pub record ScanFilesOutcome : Type 0 where
  pub results : List FileScanResult
  pub worker_panic_count : ℕ

module _ (config : ScanConfig) (scan : String → Option FileScanResult) where
  -- A file whose scan panics is reported as skipped.
  abbrev pub caught : String → Option FileScanResult → FileScanResult
  caught path (some result) = result
  caught path none =
      skipped (display_path config path) (classify_language path)
        (SkippedReason.read_error "detector panic")

  abbrev pub panics : Option FileScanResult → ℕ
  panics none = 1
  panics (some result) = 0

  unfoldable pub work : List String → ScanFilesOutcome → ScanFilesOutcome
  unfolding display_path classify_language skipped
  work [] local = local
  work (path ∷ paths) local = work paths (record {
    results = local.results ++ caught path (scan path) ∷ [];
    worker_panic_count = saturating_add local.worker_panic_count (panics (scan path));
  })

  abbrev pub idle : ScanFilesOutcome
  idle = record { results = []; worker_panic_count = 0 }

  -- Joining a worker that died outside `catch_unwind` gives one panic and no results.
  abbrev pub joined : Bool → ScanFilesOutcome → ScanFilesOutcome → ScanFilesOutcome
  joined true local total = record {
    results = total.results ++ local.results;
    worker_panic_count = saturating_add total.worker_panic_count local.worker_panic_count;
  }
  joined false local total = record total {
    worker_panic_count = saturating_add total.worker_panic_count 1;
  }

  unfoldable pub join_all :
      (ℕ → Bool) → ℕ → List (List String) → ScanFilesOutcome → ScanFilesOutcome
  unfolding work
  join_all survives n [] total = total
  join_all survives n (chunk ∷ rest) total =
      join_all survives (suc n) rest (joined (survives n) (work chunk idle) total)

  unfoldable pub scan_files : Option ℕ → (ℕ → Bool) → List String → ScanFilesOutcome
  unfolding chunks chunk_size worker_count join_all
  scan_files parallelism survives files =
      join_all survives 0 (chunks (chunk_size (length files) (worker_count parallelism)) files) idle
