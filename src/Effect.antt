-- ===== src/Effect.antt =====
-- The effects of React that load with a flag `cancelled`: web/src/views/metric-compare.tsx, container-metrics.tsx and
-- TraceDetailView of web/src/pages/traces.tsx. A run of the effect starts a request; the cleanup, which React calls
-- before the next run and when the component goes, sets the flag of the run; an answer is_live only if it is not set.
pub mod Laws
use argus_observability.Prelude.{
  ℕ, suc, ◌==◌, Bool, true, false, not, ◌&&◌, List, [], ◌∷◌, if◌then◌else◌, filter, Has,
}

-- What the effect does to the state `S`: when run `n` starts, when its answer arrives, and in `finally`.
pub record Handlers (S : Type 0) : Type 0 where
  pub started : S → S
  pub answered : ℕ → S → S
  pub settled : S → S

-- The state with the runs: how many began, whether the last one is not cleaned up, those that wait for their answer,
-- and those whose `finally` is due.
pub record Runs (S : Type 0) : Type 0 where
  pub page : S
  pub newest : ℕ
  pub live : Bool
  pub waiting : List ℕ
  pub arrived : List ℕ

-- `!cancelled` of the run.
unfoldable pub is_live : {S : Type 0} → Runs S → ℕ → Bool
is_live w run = w.live && run == w.newest

unfoldable pub others : ℕ → List ℕ → List ℕ
others run runs = filter (λ r. not (r == run)) runs

module _ {S : Type 0} (handlers : Handlers S) where
  abbrev pub mounted : S → Runs S
  mounted s = record { page = s; newest = 0; live = false; waiting = []; arrived = [] }

  unfoldable pub start_run : Runs S → Runs S
  start_run w = record {
    page = handlers.started w.page;
    newest = suc w.newest;
    live = true;
    waiting = suc w.newest ∷ w.waiting;
    arrived = w.arrived;
  }

  -- A cleanup without a next request.
  unfoldable pub stop_run : Runs S → Runs S
  stop_run w = record w { live = false }

  unfoldable pub answer_run : ℕ → Runs S → Runs S
  unfolding is_live others
  answer_run run w = record {
    page = (let next = handlers.answered run w.page in if is_live w run then next else w.page);
    newest = w.newest;
    live = w.live;
    waiting = others run w.waiting;
    arrived = run ∷ w.arrived;
  }

  unfoldable pub settle_run : ℕ → Runs S → Runs S
  unfolding is_live others
  settle_run run w = record {
    page = (let next = handlers.settled w.page in if is_live w run then next else w.page);
    newest = w.newest;
    live = w.live;
    waiting = w.waiting;
    arrived = others run w.arrived;
  }

  pub data RunStep (w : Runs S) : Runs S → Type 0 where
    starts : RunStep w (start_run w)
    stops : RunStep w (stop_run w)
    answers : (run : ℕ) → Has run w.waiting → RunStep w (answer_run run w)
    settles : (run : ℕ) → Has run w.arrived → RunStep w (settle_run run w)

  -- The worlds that come from another one.
  pub data Leads (v : Runs S) : Runs S → Type 0 where
    stays : Leads v v
    follows : {w w' : Runs S} → Leads v w → RunStep w w' → Leads v w'
