-- ===== src/Previews/Tests.antt =====
-- Runs of the previews at concrete times.
use notebortt_backend.Previews.Spacing.{AreSpaced, render_times-AreSpaced, deferred_job_renders}
use notebortt_backend.Previews.{
  render_times, enqueue_flush, Preview, process_board_preview, enqueue,
  maybe_defer_for_min_interval, run_preview_job, deferred_job, updated, PreviewJob,
}
use notebortt_backend.Common.{List, ℕ, some, ◌≡◌, ◌≡◌, refl, String, none, ◌∷◌, [], arith}

abbrev jobs : List (ℕ × String × PreviewJob)
jobs =
    (90_001, "<a>", (enqueue 1 "b").0)
    ∷ ((200_000, "<b>", (enqueue 110_000 "b").0) ∷ ((270_001, "<c>", (enqueue 180_001 "b").0) ∷ []))

render_times-AreSpaced_example :
    AreSpaced none
      (render_times jobs (some (record { preview_svg = none; preview_updated_at = none })))
unfolding enqueue
render_times-AreSpaced_example = render_times-AreSpaced jobs none (
  omega arith,
  omega arith,
  refl,
  (omega arith, omega arith, refl, (omega arith, omega arith, refl, tt)),
)

abbrev drawn : Preview
drawn = record { preview_svg = some "<a>"; preview_updated_at = some 90_001 }

deferred_job_renders_test :
    (run_preview_job 270_001 "<c>" (deferred_job 200_000 "b" 270_001) (some drawn)).0 ≡ updated
unfolding process_board_preview maybe_defer_for_min_interval
deferred_job_renders_test =
    deferred_job_renders 200_000 "b" "<b>" "<c>" drawn (deferred_job 200_000 "b" 270_001) refl

times_test :
    render_times jobs (some (record { preview_svg = none; preview_updated_at = none }))
    ≡ 90_001 ∷ (270_001 ∷ [])
unfolding render_times run_preview_job process_board_preview maybe_defer_for_min_interval enqueue
times_test = refl

flush_test : (enqueue_flush 5 "b").1 ≡ 3_005
unfolding enqueue_flush
flush_test = refl
