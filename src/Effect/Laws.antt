-- ===== src/Effect/Laws.antt =====
-- What a loading effect shows when it has settled, and that it settles.
use argus_observability.Prelude.{
  ℕ, suc, ◌≤◌, ◌==◌, Bool, true, false, not, List, ◌∷◌, ◌≡◌, refl, sym, ◌∙◌, subst, arith, Has,
  here, there, All, All-imp, All-at, All-filter, Has-filter, Has-of_filter, Bool-cases, inl, inr,
}
use argus_observability.Effect.{
  Handlers, Runs, is_live, others, mounted, start_run, stop_run, answer_run, settle_run, RunStep,
  starts, stops, answers, settles, Leads, stays, follows,
}

-- What a component owes: what holds when a run has started, what its answer makes the state show, and that the state
-- shows it until `finally` ends the loading.
pub record Loads {S : Type 0} (handlers : Handlers S) (loading : S → Bool) (Begun : S → Type 0)
    (Shows : ℕ → S → Type 0) : Type 0 where
  pub started_loading : (s : S) → loading (handlers.started s) ≡ true
  pub started_begun : (s : S) → Begun (handlers.started s)
  pub answered_loading : (n : ℕ) (s : S) → loading (handlers.answered n s) ≡ loading s
  pub answered_shows : (n : ℕ) (s : S) → Begun s → Shows n (handlers.answered n s)
  pub settled_loading : (s : S) → loading (handlers.settled s) ≡ false
  pub settled_shows : (n : ℕ) (s : S) → Shows n s → Shows n (handlers.settled s)

abbrev UpTo : ℕ → List ℕ → Type 0
UpTo n runs = All (λ run. run ≤ n) runs

too_new : (n : ℕ) (runs : List ℕ) → UpTo n runs → Has (suc n) runs → ⊥
too_new n runs h m = let le : suc n ≤ n = All-at _ m h in omega arith

older : (n : ℕ) (runs : List ℕ) → UpTo n runs → UpTo (suc n) runs
older n runs h = All-imp (λ run le. omega arith) runs h

not_other : (n : ℕ) (runs : List ℕ) → Has n (others n runs) → ⊥
unfolding others
not_other n runs m =
    let k : not (n == n) ≡ true = (Has-of_filter (λ r. not (r == n)) runs m).1 in ground arith

of_others : (n run : ℕ) (runs : List ℕ) → Has n (others run runs) → Has n runs
unfolding others
of_others n run runs m = (Has-of_filter (λ r. not (r == run)) runs m).0

other_kept : (n run : ℕ) (runs : List ℕ) → (run == n) ≡ false → Has n runs → Has n (others run runs)
unfolding others
other_kept n run runs h m = Has-filter (λ r. not (r == run)) m (ground arith)

not_head :
    (n run : ℕ) (runs : List ℕ) → (run == n) ≡ false → (Has n runs → ⊥) → Has n (run ∷ runs) → ⊥
not_head n run runs h k (here e) = ground arith
not_head n run runs h k (there m) = k m

module _ {S : Type 0} {handlers : Handlers S} {loading : S → Bool} {Begun : S → Type 0}
    {Shows : ℕ → S → Type 0} (law : Loads handlers loading Begun Shows) where
  -- Where the live run stands.
  data Phase (w : Runs S) : Type 0 where
    asked :
        Has w.newest w.waiting
        → (Has w.newest w.arrived → ⊥)
        → loading w.page ≡ true
        → Begun w.page
        → Phase w
    came : (Has w.newest w.waiting → ⊥) → Has w.newest w.arrived → Shows w.newest w.page → Phase w
    ended : (Has w.newest w.waiting → ⊥) → loading w.page ≡ false → Shows w.newest w.page → Phase w

  record Inv (w : Runs S) : Type 0 where
    phase : w.live ≡ true → Phase w
    waiting_old : UpTo w.newest w.waiting
    arrived_old : UpTo w.newest w.arrived

  Inv-opened : (s : S) → Inv (mounted handlers s)
  Inv-opened s = record { phase = λ e. cc; waiting_old = tt; arrived_old = tt }

  Inv-start_run : (w : Runs S) → Inv w → Inv (start_run handlers w)
  unfolding start_run
  Inv-start_run w inv = record {
    phase = λ e.
        asked (here refl) (λ m. too_new w.newest w.arrived inv.arrived_old m)
          (law.started_loading w.page) (law.started_begun w.page);
    waiting_old = (omega arith, older _ w.waiting inv.waiting_old);
    arrived_old = older _ w.arrived inv.arrived_old;
  }

  Inv-stop_run : (w : Runs S) → Inv w → Inv (stop_run handlers w)
  unfolding stop_run
  Inv-stop_run w inv = record {
    phase = λ e. cc;
    waiting_old = inv.waiting_old;
    arrived_old = inv.arrived_old;
  }

  is_live-newest : (w : Runs S) (run : ℕ) → is_live w run ≡ true → run ≡ w.newest
  unfolding is_live
  is_live-newest w run h = ground arith

  stale : (w : Runs S) (run : ℕ) → w.live ≡ true → is_live w run ≡ false → (run == w.newest) ≡ false
  unfolding is_live
  stale w run l h = ground arith

  Phase-answer_stale :
      (w : Runs S) (run : ℕ)
      → (run == w.newest) ≡ false
      → Phase w
      → Phase (record w { waiting = others run w.waiting; arrived = run ∷ w.arrived })
  Phase-answer_stale w run e (asked m k l b) =
      asked (other_kept _ run w.waiting e m) (λ n. not_head _ run w.arrived e k n) l b
  Phase-answer_stale w run e (came k m s) = came (λ n. k (of_others _ run w.waiting n)) (there m) s
  Phase-answer_stale w run e (ended k l s) = ended (λ n. k (of_others _ run w.waiting n)) l s

  Phase-answer_newest :
      (w : Runs S)
      → Has w.newest w.waiting
      → Phase w
      → Phase (record w {
        page = handlers.answered w.newest w.page;
        waiting = others w.newest w.waiting;
        arrived = w.newest ∷ w.arrived;
      })
  Phase-answer_newest w m (asked m' k l b) =
      came (λ n. not_other _ w.waiting n) (here refl) (law.answered_shows _ w.page b)
  Phase-answer_newest w m (came k m' s) = absurd (k m)
  Phase-answer_newest w m (ended k l s) = absurd (k m)

  Inv-answer_run :
      (w : Runs S) (run : ℕ) → Inv w → Has run w.waiting → Inv (answer_run handlers run w)
  unfolding answer_run others
  Inv-answer_run w run inv m = record {
    phase = λ l. elim (Bool-cases (is_live w run)) [
      | inl e ↦ rw e (
          subst
            (λ r. Phase (record w {
              page = handlers.answered r w.page;
              waiting = others r w.waiting;
              arrived = r ∷ w.arrived;
            }))
            (sym (is_live-newest w run e))
            (Phase-answer_newest w (subst (λ r. Has r w.waiting) (is_live-newest w run e) m)
              (inv.phase l)))
      | inr e ↦ rw e (Phase-answer_stale w run (stale w run l e) (inv.phase l))
    ];
    waiting_old = All-filter _ (λ r. not (r == run)) w.waiting inv.waiting_old;
    arrived_old = (All-at _ m inv.waiting_old, inv.arrived_old);
  }

  Phase-settle_stale :
      (w : Runs S) (run : ℕ)
      → (run == w.newest) ≡ false
      → Phase w
      → Phase (record w { arrived = others run w.arrived })
  Phase-settle_stale w run e (asked m k l b) = asked m (λ n. k (of_others _ run w.arrived n)) l b
  Phase-settle_stale w run e (came k m s) = came k (other_kept _ run w.arrived e m) s
  Phase-settle_stale w run e (ended k l s) = ended k l s

  Phase-settle_newest :
      (w : Runs S)
      → Has w.newest w.arrived
      → Phase w
      → Phase (record w { page = handlers.settled w.page; arrived = others w.newest w.arrived })
  Phase-settle_newest w m (asked m' k l b) = absurd (k m)
  Phase-settle_newest w m (came k m' s) =
      ended k (law.settled_loading w.page) (law.settled_shows _ w.page s)
  Phase-settle_newest w m (ended k l s) =
      ended k (law.settled_loading w.page) (law.settled_shows _ w.page s)

  Inv-settle_run :
      (w : Runs S) (run : ℕ) → Inv w → Has run w.arrived → Inv (settle_run handlers run w)
  unfolding settle_run others
  Inv-settle_run w run inv m = record {
    phase = λ l. elim (Bool-cases (is_live w run)) [
      | inl e ↦ rw e (
          subst
            (λ r. Phase (record w { page = handlers.settled w.page; arrived = others r w.arrived }))
            (sym (is_live-newest w run e))
            (Phase-settle_newest w (subst (λ r. Has r w.arrived) (is_live-newest w run e) m)
              (inv.phase l)))
      | inr e ↦ rw e (Phase-settle_stale w run (stale w run l e) (inv.phase l))
    ];
    waiting_old = inv.waiting_old;
    arrived_old = All-filter _ (λ r. not (r == run)) w.arrived inv.arrived_old;
  }

  Inv-RunStep : {w w' : Runs S} → Inv w → RunStep handlers w w' → Inv w'
  Inv-RunStep {w = w} inv starts = Inv-start_run w inv
  Inv-RunStep {w = w} inv stops = Inv-stop_run w inv
  Inv-RunStep {w = w} inv (answers run m) = Inv-answer_run w run inv m
  Inv-RunStep {w = w} inv (settles run m) = Inv-settle_run w run inv m

  Inv-Leads : {s : S} {w : Runs S} → Leads handlers (mounted handlers s) w → Inv w
  Inv-Leads {s = s} stays = Inv-opened s
  Inv-Leads (follows r step) = Inv-RunStep (Inv-Leads r) step

  -- Whatever the order of the answers: if the last run is not cleaned up and the state is not loading, it shows the
  -- answer of that run.
  pub Leads-Shows :
      {s : S} {w : Runs S}
      → Leads handlers (mounted handlers s) w
      → w.live ≡ true
      → loading w.page ≡ false
      → Shows w.newest w.page
  Leads-Shows {w = w} r l e = elim ((Inv-Leads r).phase l) [
    | asked m k loads b ↦ absurd cc
    | came k m h ↦ h
    | ended k f h ↦ h
  ]

  -- A world that follows, in which the live run has settled.
  pub record Settled (w : Runs S) : Type 0 where
    pub world : Runs S
    pub path : Leads handlers w world
    pub same : world.newest ≡ w.newest
    pub done : loading world.page ≡ false
    pub shown : Shows world.newest world.page

  page-settle_run :
      (w : Runs S) → w.live ≡ true → (settle_run handlers w.newest w).page ≡ handlers.settled w.page
  unfolding settle_run is_live
  page-settle_run w l = ground arith

  page-answer_run :
      (w : Runs S)
      → w.live ≡ true
      → (answer_run handlers w.newest w).page ≡ handlers.answered w.newest w.page
  unfolding answer_run is_live
  page-answer_run w l = ground arith

  answer_same :
      (w : Runs S) (run : ℕ)
      → ((answer_run handlers run w).newest ≡ w.newest)
        × ((answer_run handlers run w).live ≡ w.live)
        × Has run (answer_run handlers run w).arrived
  unfolding answer_run
  answer_same w run = (refl, refl, here refl)

  settle_same : (w : Runs S) (run : ℕ) → (settle_run handlers run w).newest ≡ w.newest
  unfolding settle_run
  settle_same w run = refl

  Settled-came :
      (w : Runs S) → w.live ≡ true → Has w.newest w.arrived → Shows w.newest w.page → Settled w
  Settled-came w l m h = record {
    world = settle_run handlers w.newest w;
    path = follows stays (settles w.newest m);
    same = settle_same w w.newest;
    done = rw (page-settle_run w l) (law.settled_loading w.page);
    shown = rw (page-settle_run w l, settle_same w w.newest) (law.settled_shows _ w.page h);
  }

  Leads-trans : {u v w : Runs S} → Leads handlers u v → Leads handlers v w → Leads handlers u w
  Leads-trans p stays = p
  Leads-trans p (follows q step) = follows (Leads-trans p q) step

  Settled-asked : (w : Runs S) → w.live ≡ true → Has w.newest w.waiting → Begun w.page → Settled w
  Settled-asked w l m b =
      let w' = answer_run handlers w.newest w in
      let (same, live, came') = answer_same w w.newest in
      let rest =
        Settled-came w' (live ∙ l) (subst (λ n. Has n w'.arrived) (sym same) came')
          (rw (page-answer_run w l, same) (law.answered_shows _ w.page b)) in
      record {
        world = rest.world;
        path = Leads-trans (follows stays (answers w.newest m)) rest.path;
        same = rest.same ∙ same;
        done = rest.done;
        shown = rest.shown;
      }

  -- From each world whose last run is not cleaned up, its answer and its `finally` lead to a world in which the
  -- same run is the last, nothing is loading, and the state shows the answer.
  pub Leads-Settled :
      {s : S} {w : Runs S} → Leads handlers (mounted handlers s) w → w.live ≡ true → Settled w
  Leads-Settled {w = w} r l = elim ((Inv-Leads r).phase l) [
    | asked m k loads b ↦ Settled-asked w l m b
    | came k m h ↦ Settled-came w l m h
    | ended k f h ↦ record { world = w; path = stays; same = refl; done = f; shown = h }
  ]
