-- ===== src/Previews/Spacing.antt =====
-- How often the preview of a board is rendered.
use notebortt_backend.Previews.{
  Preview, PreviewJob, preview_min_interval_ms, run_preview_job, render_times,
  process_board_preview, maybe_defer_for_min_interval, was_rendered, deferred, updated,
}
use notebortt_backend.Common.{
  ℕ, Option, List, ◌∷◌, String, some, ◌+◌, none, ◌≤◌, ◌≤◌, ◌≡◌, [], ◌≡◌, false, arith, inl, inr,
  ◌⊎◌, ◌⊎◌, true, Bool-cases, leb, ◌-◌,
}

-- Jobs that are no flush, at times from some time on that do not go back.
abbrev pub AreDebounced : ℕ → List (ℕ × String × PreviewJob) → Type 0
AreDebounced from [] = Unit {0}
AreDebounced from ((now, svg, job) ∷ jobs) =
    (from ≤ now) × (1 ≤ now) × (job.job_flush ≡ false) × AreDebounced now jobs

-- Each time is at least three minutes after the one before, and the first after the last render.
abbrev pub AreSpaced : Option ℕ → List ℕ → Type 0
AreSpaced last [] = Unit {0}
AreSpaced none (t ∷ ts) = AreSpaced (some t) ts
AreSpaced (some last) (t ∷ ts) = (last + preview_min_interval_ms ≤ t) × AreSpaced (some t) ts

abbrev rendered_at : ℕ → String → Preview
rendered_at last svg = record { preview_svg = some svg; preview_updated_at = some last }

-- A job at a board that was rendered last at some time: it waits, or renders three minutes later.
job-cases :
    (now last : ℕ) (picture svg : String) (job : PreviewJob)
    → 1 ≤ last
    → last ≤ now
    → job.job_flush ≡ false
    → let run = run_preview_job now svg job (some (rendered_at last picture)) in
      ((was_rendered run.0 ≡ false) × (run.1 ≡ some (rendered_at last picture)))
      ⊎ ((was_rendered run.0 ≡ true)
          × (run.1 ≡ some (rendered_at now svg))
          × (last + preview_min_interval_ms ≤ now))
unfolding run_preview_job process_board_preview maybe_defer_for_min_interval
job-cases now last picture svg job some_time later debounced =
    elim (Bool-cases (leb preview_min_interval_ms (now - last))) [
      | inl due ↦ inr (ground arith)
      | inr early ↦ inl (ground arith)
    ]

spaced_from :
    (jobs : List (ℕ × String × PreviewJob)) (from last : ℕ) (picture : String)
    → 1 ≤ last
    → last ≤ from
    → AreDebounced from jobs
    → AreSpaced (some last) (render_times jobs (some (rendered_at last picture)))
unfolding render_times
spaced_from [] from last picture some_time past h = tt
spaced_from ((now, svg, job) ∷ jobs) from last picture some_time past
      (order, positive, flag, rest) =
    elim (job-cases now last picture svg job some_time (omega arith) flag) [
      | inl (waits, same) ↦
          rw (waits, same) (spaced_from jobs now last picture some_time (omega arith) rest)
      | inr (renders, moved, gap) ↦
          rw (renders, moved) (gap, spaced_from jobs now now svg positive (omega arith) rest)
    ]

-- The debounced jobs of a board that has no preview yet, at whatever times and in whatever number,
-- render it at most once in three minutes; the flush of an editor that leaves is no such job.
pub render_times-AreSpaced :
    (jobs : List (ℕ × String × PreviewJob)) (picture : Option String)
    → AreDebounced 0 jobs
    → AreSpaced none
        (render_times jobs (some (record { preview_svg = picture; preview_updated_at = none })))
unfolding render_times run_preview_job process_board_preview maybe_defer_for_min_interval
render_times-AreSpaced [] picture h = tt
render_times-AreSpaced ((now, svg, job) ∷ jobs) picture (order, positive, flag, rest) =
    rw flag (spaced_from jobs now now svg positive (omega arith) rest)

-- A render that is put off is made when the job that is queued for it is due, however soon the
-- picture was drawn last: it is not put off again.
pub deferred_job_renders :
    (now : ℕ) (board_id svg later_svg : String) (preview : Preview) (job : PreviewJob)
    → (process_board_preview now board_id false svg (some preview)).0 ≡ deferred job
    → (run_preview_job (now + job.job_delay) later_svg job (some preview)).0 ≡ updated
unfolding run_preview_job process_board_preview maybe_defer_for_min_interval
deferred_job_renders now board_id svg later_svg preview job h = ground arith
