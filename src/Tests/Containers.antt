-- ===== src/Tests/Containers.antt =====
-- Containers, sorting, hints and dealing on a small trace.
use nvm_tools.Base.{ℕ, ◌≡◌, refl, Bool, true, List, [], ◌∷◌, ◌++◌, ok, Returns, arith}
use nvm_tools.Trace.Container.{trace_container_add, trace_container_add_collection}
use nvm_tools.Trace.Container.Laws.{
  Appends, trace_container_add_lem, trace_container_add_collection_lem,
}
use nvm_tools.Sort.{merge_array_by_ts, trace_container_sort_infomap_by_ts}
use nvm_tools.Sort.Interleave.{interleave}
use nvm_tools.Sort.Merge.{merge_array_by_ts_lem}
use mathlib.Core.List.{Perm}
use nvm_tools.Trace.{TraceInfo}
use nvm_tools.Sort.Interleave.{IsSorted}
use nvm_tools.Sort.Quick.{infomap_qsort_by_ts, partition_by_ts}
use nvm_tools.Sort.Quick.Whole.{infomap_qsort_by_ts_lem}
use nvm_tools.Sort.Whole.{SortsContainer, trace_container_sort_infomap_by_ts_lem}
use nvm_tools.Hints.{extract_hints}
use nvm_tools.Hints.Loop.{Extracts, extract_hints_lem}
use nvm_tools.Assign.{deal, prepare_all}
use nvm_tools.Assign.Chunks.{Deals}
use nvm_tools.Assign.Deal.{deal_lem}
use nvm_tools.Assign.Prepare.{IsSortable, PreparesAll, prepare_all_lem}
use nvm_tools.Tests.Data.{info, three, box, three_box, three_box-IsValid}

abbrev granted : ℕ → Bool
granted n = true

abbrev zeros : ℕ → ℕ
zeros n = 0

-- The infos of the trace in the order of their time stamps.
sorted_three :
    trace_container_sort_infomap_by_ts three_box
    ≡ ok (box 0 (info 1 8 ∷ info 2 16 ∷ info 3 800 ∷ []))
unfolding trace_container_sort_infomap_by_ts
sorted_three = refl

-- Two neighbouring blocks share a hint if two blocks are allowed in one.
two_hints :
    extract_hints 3 2 (info 1 8 ∷ info 2 16 ∷ info 3 800 ∷ []) 3 []
    ≡ ok (record {
      hints =
          record { continuous_blks = 2; start_trace_line = 0; rw = b'W' }
          ∷ record { continuous_blks = 1; start_trace_line = 2; rw = b'W' }
          ∷ [];
      consecutive_start = 2;
      max_blks = 2;
    })
unfolding extract_hints
two_hints = refl

trace_container_add_example :
    Returns (trace_container_add granted three_box (info 4 24)) (Appends three_box (info 4 24 ∷ []))
trace_container_add_example =
    trace_container_add_lem granted three_box (info 4 24) three_box-IsValid (omega arith) refl

trace_container_add_collection_example :
    Returns (trace_container_add_collection granted three_box three_box) (Appends three_box three)
trace_container_add_collection_example =
    trace_container_add_collection_lem granted three_box three_box (λ n. refl) three_box-IsValid
      three_box-IsValid (omega arith)

infomap_qsort_by_ts_example :
    (infos : List TraceInfo) × (infomap_qsort_by_ts 4
        ((info 9 8 ∷ []) ++ (three ++ (info 0 8 ∷ [])))
        1
        3
      ≡ ok ((info 9 8 ∷ []) ++ (infos ++ (info 0 8 ∷ []))))
    × IsSorted infos
    × Perm infos three
infomap_qsort_by_ts_example =
    infomap_qsort_by_ts_lem 4 (info 9 8 ∷ []) three (info 0 8 ∷ []) 3 refl (omega arith)
      (omega arith)

-- The quick sort is not stable: the infos with time stamp 5 change places.
unstable_four :
    infomap_qsort_by_ts 5 (info 3 8 ∷ info 5 16 ∷ info 5 24 ∷ info 1 32 ∷ []) 0 3
    ≡ ok (info 1 32 ∷ info 3 8 ∷ info 5 24 ∷ info 5 16 ∷ [])
unfolding infomap_qsort_by_ts partition_by_ts
unstable_four = refl

merge_array_by_ts_example :
    merge_array_by_ts 2 ([] ++ ((info 5 8 ∷ []) ++ ((info 1 16 ∷ []) ++ []))) 0 0 1
    ≡ ok ([] ++ (interleave (info 5 8 ∷ []) (info 1 16 ∷ []) ++ []))
merge_array_by_ts_example =
    merge_array_by_ts_lem 2 [] (info 5 8 ∷ []) (info 1 16 ∷ []) [] 0 0 1 refl refl refl
      (omega arith)

trace_container_sort_example :
    Returns (trace_container_sort_infomap_by_ts three_box) (SortsContainer three_box)
trace_container_sort_example =
    trace_container_sort_infomap_by_ts_lem three_box three_box-IsValid (omega arith) (omega arith)

extract_hints_example : Returns (extract_hints 3 2 three 3 []) (Extracts 2 three [])
extract_hints_example = extract_hints_lem 3 2 3 three [] refl (omega arith) (omega arith)

deal_example :
    Returns
      (deal zeros granted 2 6 (three_box ∷ three_box ∷ []))
      (Deals 2 (three_box ∷ three_box ∷ []))
deal_example =
    deal_lem zeros granted 2 6 (three_box ∷ three_box ∷ []) (λ n. refl) (omega arith) (omega arith)
      (three_box-IsValid, (three_box-IsValid, tt)) (omega arith)

three_box-IsSortable : IsSortable three_box
three_box-IsSortable = record {
  valid = three_box-IsValid;
  some_infos = omega arith;
  small = omega arith;
}

prepare_all_example :
    Returns
      (prepare_all 6 2 [] (three_box ∷ three_box ∷ []))
      (λ r. PreparesAll 2 (three_box ∷ three_box ∷ []) [] r.0 r.1)
prepare_all_example =
    prepare_all_lem 6 2 (three_box ∷ three_box ∷ []) []
      (three_box-IsSortable, (three_box-IsSortable, tt)) (omega arith)
