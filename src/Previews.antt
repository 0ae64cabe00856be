-- ===== src/Previews.antt =====
-- src/modules/previews/preview-job.service.ts: when the preview of a board is rendered. The text
-- that the renderer draws is an argument.
use notebortt_backend.Common.{
  ℕ, Option, List, Bool, String, [], false, ◌∷◌, true, if◌then◌else◌, some, if◌then◌else◌, ◌-◌, ◌-◌,
  ◌+◌, ◌+◌, none, eqb, ◌||◌, ◌||◌, leb,
}
use Prim.Native.String.{◌++◌ as join}
pub mod Spacing
mod Tests

abbrev pub preview_debounce_window_ms : ℕ
preview_debounce_window_ms = 90_000

abbrev pub preview_min_interval_ms : ℕ
preview_min_interval_ms = 180_000

abbrev pub preview_flush_delay_ms : ℕ
preview_flush_delay_ms = 3_000

-- A job of the queue, with its deduplication, which extends its window and replaces the job.
pub record PreviewJob : Type 0 where
  pub job_board : String
  pub job_flush : Bool
  pub job_dedup_id : String
  pub job_dedup_ttl : ℕ
  pub job_delay : ℕ

abbrev pub dedup_id_for : String → String
dedup_id_for board_id = join "preview-" board_id

abbrev pub flush_dedup_id_for : String → String
flush_dedup_id_for board_id = join "preview-flush-" board_id

-- The job, and when it is due.
unfoldable pub enqueue : ℕ → String → PreviewJob × ℕ
enqueue now board_id = (
  record {
    job_board = board_id;
    job_flush = false;
    job_dedup_id = dedup_id_for board_id;
    job_dedup_ttl = preview_debounce_window_ms;
    job_delay = preview_debounce_window_ms;
  },
  now + preview_debounce_window_ms,
)

unfoldable pub enqueue_flush : ℕ → String → PreviewJob × ℕ
enqueue_flush now board_id = (
  record {
    job_board = board_id;
    job_flush = true;
    job_dedup_id = flush_dedup_id_for board_id;
    job_dedup_ttl = preview_flush_delay_ms;
    job_delay = preview_flush_delay_ms;
  },
  now + preview_flush_delay_ms,
)

-- The columns of `boards` for its preview; `none` for a board that is not there.
pub record Preview : Type 0 where
  pub preview_svg : Option String
  pub preview_updated_at : Option ℕ

-- When a deferred render is due.
unfoldable pub maybe_defer_for_min_interval : ℕ → Option Preview → Option ℕ
maybe_defer_for_min_interval now none = none
maybe_defer_for_min_interval now (some preview) = elim preview.preview_updated_at [
  | none ↦ none
  | some updated ↦
      if eqb updated 0 || leb preview_min_interval_ms (now - updated)
      then none
      else some (updated + preview_min_interval_ms)
]

pub data PreviewEnd : Type 0 where
  updated : PreviewEnd
  skipped : PreviewEnd
  -- with the job that is queued
  deferred : PreviewJob → PreviewEnd

abbrev pub deferred_job : ℕ → String → ℕ → PreviewJob
deferred_job now board_id due = record {
  job_board = board_id;
  job_flush = false;
  job_dedup_id = dedup_id_for board_id;
  job_dedup_ttl = due - now;
  job_delay = due - now;
}

abbrev pub render_if_there : ℕ → String → Option Preview → PreviewEnd × Option Preview
render_if_there now svg none = (skipped, none)
render_if_there now svg (some preview) =
    (updated, some (record { preview_svg = some svg; preview_updated_at = some now }))

abbrev pub render_or_defer :
    ℕ → String → String → Option ℕ → Option Preview → PreviewEnd × Option Preview
render_or_defer now board_id svg (some due) board =
    (deferred (deferred_job now board_id due), board)
render_or_defer now board_id svg none board = render_if_there now svg board

-- `processBoardPreview`; the clock is read once.
unfoldable pub process_board_preview :
    ℕ → String → Bool → String → Option Preview → PreviewEnd × Option Preview
unfolding maybe_defer_for_min_interval
process_board_preview now board_id skip_min_interval svg board =
    if skip_min_interval
    then render_if_there now svg board
    else render_or_defer now board_id svg (maybe_defer_for_min_interval now board) board

-- The worker takes a job: its flag skips the interval.
unfoldable pub run_preview_job :
    ℕ → String → PreviewJob → Option Preview → PreviewEnd × Option Preview
unfolding process_board_preview
run_preview_job now svg job board = process_board_preview now job.job_board job.job_flush svg board

abbrev pub was_rendered : PreviewEnd → Bool
was_rendered updated = true
was_rendered skipped = false
was_rendered (deferred job) = false

-- The times at which the jobs of a board render it; each job comes with the clock and its picture.
unfoldable pub render_times : List (ℕ × String × PreviewJob) → Option Preview → List ℕ
unfolding run_preview_job
render_times [] board = []
render_times ((now, svg, job) ∷ jobs) board =
    let run = run_preview_job now svg job board in
    let rest = render_times jobs run.1 in if was_rendered run.0 then now ∷ rest else rest
