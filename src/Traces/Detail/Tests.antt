-- ===== src/Traces/Detail/Tests.antt =====
-- A trace that is not found.
use argus_observability.Prelude.{ℕ, Option, none, true, false, ◌≡◌, refl, here, filter}
use argus_observability.Api.Types.{TraceDetail}
use argus_observability.Effect.{
  Runs, Leads, stays, follows, starts, answers, settles, mounted, start_run, answer_run, settle_run,
  is_live, others,
}
use argus_observability.Traces.{DetailState, detail_started, detail_answered, detail_settled}
use argus_observability.Traces.Detail.{detail_effect, ShowsDetail, Leads-ShowsDetail}

abbrev hub : ℕ → Option TraceDetail
hub n = none

abbrev first_state : DetailState
first_state = record { detail = none; loading = true; error = false }

abbrev final : Runs DetailState
final = settle_run (detail_effect hub) 1 (
    answer_run (detail_effect hub) 1
      (start_run (detail_effect hub) (mounted (detail_effect hub) first_state)))

final_path : Leads (detail_effect hub) (mounted (detail_effect hub) first_state) final
unfolding start_run answer_run settle_run is_live others filter
final_path =
    follows (follows (follows stays starts) (answers 1 (here refl))) (settles 1 (here refl))

final_live : final.live ≡ true
unfolding start_run answer_run settle_run
final_live = refl

final_still : final.page.loading ≡ false
unfolding start_run answer_run settle_run is_live others detail_effect detail_started
    detail_answered detail_settled
final_still = refl

Leads-ShowsDetail_example : ShowsDetail hub final.newest final.page
Leads-ShowsDetail_example =
    Leads-ShowsDetail hub first_state final final_path final_live final_still
