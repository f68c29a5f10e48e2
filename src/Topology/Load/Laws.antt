-- ===== src/Topology/Load/Laws.antt =====
-- What the page shows when it has loaded.
use argus_observability.Prelude.{
  ℕ, suc, ◌≤◌, Bool, true, false, Option, none, some, List, [], ◌∷◌, ◌≡◌, refl, sym, subst, arith,
  Has, here, there, All, All-imp, All-at, Bool-cases, inl, inr,
}
use argus_observability.Api.Types.{TopologyGraph}
use argus_observability.Topology.Load.{
  PageState, initial, load, current, graph_answered, graph_settled, SideAnswer, fleet_answer,
  workloads_answer, http_answer, alerts_answer, apply_side, side_answered, World, Step, loads,
  answers, settles, sides, Reachable, opens, steps,
}

-- The page shows the outcome of a request: its graph, or that it failed.
abbrev pub Outcome : Option TopologyGraph → TopologyGraph → Bool → Type 0
Outcome none graph error = error ≡ true
Outcome (some g) graph error = (graph ≡ g) × (error ≡ false)

abbrev pub Shows : Option TopologyGraph → PageState → Type 0
Shows o s = Outcome o s.graph s.error

-- An error is shown only if the request failed.
abbrev NoError : Option TopologyGraph → Bool → Type 0
NoError none error = Unit {0}
NoError (some g) error = error ≡ false

abbrev NotFailed : Option TopologyGraph → PageState → Type 0
NotFailed o s = NoError o s.error

abbrev UpTo : ℕ → List ℕ → Type 0
UpTo n runs = All (λ run. run ≤ n) runs

current_iff : (run : ℕ) (s : PageState) → current run s ≡ true → run ≡ s.generation
unfolding current
current_iff run s h = ground arith

current-else : (run : ℕ) (s : PageState) → run ≡ s.generation → current run s ≡ false → ⊥
unfolding current
current-else run s e h = ground arith

NotFailed-of_Shows : (o : Option TopologyGraph) (s : PageState) → Shows o s → NotFailed o s
NotFailed-of_Shows none s h = tt
NotFailed-of_Shows (some g) s h = h.1

NotFailed-of_error : (o : Option TopologyGraph) (s : PageState) → s.error ≡ false → NotFailed o s
NotFailed-of_error none s h = tt
NotFailed-of_error (some g) s h = h

-- The handler of the newest load's answer shows it.
Shows-graph_answered :
    (run : ℕ) (s : PageState) (o : Option TopologyGraph)
    → current run s ≡ true
    → NotFailed o s
    → Shows o (graph_answered run o s)
unfolding graph_answered
Shows-graph_answered run s none e h = rw e refl
Shows-graph_answered run s (some g) e h = rw e (refl, h)

generation-graph_answered :
    (run : ℕ) (o : Option TopologyGraph) (s : PageState)
    → (graph_answered run o s).generation ≡ s.generation
unfolding graph_answered
generation-graph_answered run none s = elim (Bool-cases (current run s)) [
  | inl e ↦ rw e refl
  | inr e ↦ rw e refl
]
generation-graph_answered run (some g) s = elim (Bool-cases (current run s)) [
  | inl e ↦ rw e refl
  | inr e ↦ rw e refl
]

-- An older answer changes nothing.
stale-graph_answered :
    (run : ℕ) (o : Option TopologyGraph) (s : PageState)
    → current run s ≡ false
    → graph_answered run o s ≡ s
unfolding graph_answered
stale-graph_answered run none s e = rw e refl
stale-graph_answered run (some g) s e = rw e refl

Shows-loaded :
    (o : Option TopologyGraph) (s : PageState) → Shows o s → Shows o (record s { loading = false })
Shows-loaded none s h = h
Shows-loaded (some g) s h = h

Has-tail : {n run : ℕ} {runs : List ℕ} → Has n (run ∷ runs) → (run ≡ n → ⊥) → Has n runs
Has-tail (here f) h = absurd (h (sym f))
Has-tail (there m) h = m

module _ (answer : ℕ → Option TopologyGraph) where
  record Inv (w : World) : Type 0 where
    answered_shown : Has w.page.generation w.answered → Shows (answer w.page.generation) w.page
    loaded_shown : w.page.loading ≡ false → Shows (answer w.page.generation) w.page
    not_failed : NotFailed (answer w.page.generation) w.page
    waiting_old : UpTo w.page.generation w.waiting
    answered_old : UpTo w.page.generation w.answered

  Inv-of_Shows :
      (w : World)
      → Shows (answer w.page.generation) w.page
      → UpTo w.page.generation w.waiting
      → UpTo w.page.generation w.answered
      → Inv w
  Inv-of_Shows w h p q = record {
    answered_shown = λ m. h;
    loaded_shown = λ e. h;
    not_failed = NotFailed-of_Shows _ w.page h;
    waiting_old = p;
    answered_old = q;
  }

  too_new : (n : ℕ) (runs : List ℕ) → UpTo n runs → Has (suc n) runs → ⊥
  too_new n runs h m = let le : suc n ≤ n = All-at _ m h in omega arith

  older : (n : ℕ) (runs : List ℕ) → UpTo n runs → UpTo (suc n) runs
  older n runs h = All-imp (λ run le. omega arith) runs h

  Inv-loads :
      (w : World)
      → Inv w
      → Inv (record {
        page = load w.page;
        waiting = suc w.page.generation ∷ w.waiting;
        answered = w.answered;
      })
  unfolding load
  Inv-loads w inv = record {
    answered_shown = λ m. absurd (too_new w.page.generation w.answered inv.answered_old m);
    loaded_shown = λ e. cc;
    not_failed = NotFailed-of_error _ (load w.page) refl;
    waiting_old = (omega arith, older _ w.waiting inv.waiting_old);
    answered_old = older _ w.answered inv.answered_old;
  }

  Inv-answers :
      (w : World) (run : ℕ)
      → Inv w
      → Has run w.waiting
      → Inv (record {
        page = graph_answered run (answer run) w.page;
        waiting = w.waiting;
        answered = run ∷ w.answered;
      })
  Inv-answers w run inv m = elim (Bool-cases (current run w.page)) [
    | inl e ↦ newest e (current_iff run w.page e)
    | inr e ↦ rw (stale-graph_answered run (answer run) w.page e) (record {
      answered_shown = λ n. inv.answered_shown (Has-tail n (λ f. current-else run w.page f e));
      loaded_shown = inv.loaded_shown;
      not_failed = inv.not_failed;
      waiting_old = inv.waiting_old;
      answered_old = (All-at _ m inv.waiting_old, inv.answered_old);
    })
  ]
    where
      newest :
          current run w.page ≡ true
          → run ≡ w.page.generation
          → Inv (record {
            page = graph_answered run (answer run) w.page;
            waiting = w.waiting;
            answered = run ∷ w.answered;
          })
      newest e f =
          let page' = graph_answered run (answer run) w.page in
          let g = generation-graph_answered run (answer run) w.page in
          let ok : NotFailed (answer run) w.page =
            subst (λ n. NotFailed (answer n) w.page) (sym f) inv.not_failed in
          let h : Shows (answer w.page.generation) page' =
            subst (λ n. Shows (answer n) page') f
              (Shows-graph_answered run w.page (answer run) e ok) in
          Inv-of_Shows _ (subst (λ n. Shows (answer n) page') (sym g) h)
            (subst (λ n. UpTo n w.waiting) (sym g) inv.waiting_old)
            (subst (λ n. UpTo n (run ∷ w.answered)) (sym g)
              (All-at _ m inv.waiting_old, inv.answered_old))

  Inv-settles :
      (w : World) (run : ℕ)
      → Inv w
      → Has run w.answered
      → Inv (record w { page = graph_settled run w.page })
  unfolding graph_settled
  Inv-settles w run inv m = elim (Bool-cases (current run w.page)) [
    | inl e ↦ rw e (
        let h = inv.answered_shown (subst (λ n. Has n w.answered) (current_iff run w.page e) m) in
        Inv-of_Shows _ (Shows-loaded _ w.page h) inv.waiting_old inv.answered_old)
    | inr e ↦ rw e inv
  ]

  Inv-apply_side :
      (w : World) (v : SideAnswer) → Inv w → Inv (record w { page = apply_side v w.page })
  unfolding apply_side
  Inv-apply_side w (fleet_answer v) inv = record {
    answered_shown = inv.answered_shown;
    loaded_shown = inv.loaded_shown;
    not_failed = inv.not_failed;
    waiting_old = inv.waiting_old;
    answered_old = inv.answered_old;
  }
  Inv-apply_side w (workloads_answer v) inv = record {
    answered_shown = inv.answered_shown;
    loaded_shown = inv.loaded_shown;
    not_failed = inv.not_failed;
    waiting_old = inv.waiting_old;
    answered_old = inv.answered_old;
  }
  Inv-apply_side w (http_answer v) inv = record {
    answered_shown = inv.answered_shown;
    loaded_shown = inv.loaded_shown;
    not_failed = inv.not_failed;
    waiting_old = inv.waiting_old;
    answered_old = inv.answered_old;
  }
  Inv-apply_side w (alerts_answer v) inv = record {
    answered_shown = inv.answered_shown;
    loaded_shown = inv.loaded_shown;
    not_failed = inv.not_failed;
    waiting_old = inv.waiting_old;
    answered_old = inv.answered_old;
  }

  Inv-sides :
      (w : World) (run : ℕ) (v : SideAnswer)
      → Inv w
      → Inv (record w { page = side_answered run v w.page })
  unfolding side_answered
  Inv-sides w run v inv = elim (Bool-cases (current run w.page)) [
    | inl e ↦ rw e (Inv-apply_side w v inv)
    | inr e ↦ rw e inv
  ]

  Inv-initial : Inv (record { page = initial; waiting = []; answered = [] })
  Inv-initial = record {
    answered_shown = λ m. elim m [ ];
    loaded_shown = λ e. cc;
    not_failed = NotFailed-of_error _ initial refl;
    waiting_old = tt;
    answered_old = tt;
  }

  Inv-Step : {w w' : World} → Inv w → Step answer w w' → Inv w'
  Inv-Step {w = w} inv loads = Inv-loads w inv
  Inv-Step {w = w} inv (answers run m) = Inv-answers w run inv m
  Inv-Step {w = w} inv (settles run m) = Inv-settles w run inv m
  Inv-Step {w = w} inv (sides run v) = Inv-sides w run v inv

  Inv-Reachable : {w : World} → Reachable answer w → Inv w
  Inv-Reachable opens = Inv-initial
  Inv-Reachable (steps r step) = Inv-Step (Inv-Reachable r) step

  -- In each world that the page comes to, whatever the order of the answers, a page that is not loading shows what
  -- the hub answered to the newest load: its graph without an error, or that it failed.
  pub Reachable-Shows :
      {w : World}
      → Reachable answer w
      → w.page.loading ≡ false
      → Shows (answer w.page.generation) w.page
  Reachable-Shows r e = (Inv-Reachable r).loaded_shown e
