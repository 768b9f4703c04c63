-- ===== src/Aggregator/Checkpoint/Logged.antt =====
-- States that carry the log of the updates and flushes they went through, for a worker that does not
-- look at it.
use market_tick_aggregator.Prelude.{◌≡◌, refl, ap, List, [], ◌∷◌, Eq, Among, here, there, subst}
use market_tick_aggregator.Aggregator.Checkpoint.{Effects}
use market_tick_aggregator.Aggregator.Checkpoint.Covers.{
  Change, updated_by, flushed, change, replay, Covers,
}
use market_tick_aggregator.Aggregator.Checkpoint.Covered.{World, saved}
use market_tick_aggregator.Aggregator.Checkpoint.Run.{Event, started, run, committed-Covers}

module _ {S T : Type 0} (x : Effects S T) where
  -- What a log, its last change first, makes of a state.
  unfoldable pub made_by : List (Change T) → S → S
  made_by [] s = s
  made_by (c ∷ log) s = change x c (made_by log s)

  pub record LoggedState : Type 0 where
    pub start : S
    pub log : List (Change T)
    pub state : S
    pub made : made_by log start ≡ state

  unfoldable pub log_change : Change T → LoggedState → LoggedState
  unfolding made_by
  log_change c s = record {
    start = s.start;
    log = c ∷ s.log;
    state = change x c s.state;
    made = ap (change x c) s.made;
  }

  -- The tests, updates and flushes of `x` on the state, each change put on the log.
  abbrev pub logged : Effects LoggedState T
  logged = record {
    already_applied = λ t s. x.already_applied t s.state;
    update = λ t s. log_change (updated_by t) s;
    flush = λ id s. log_change (flushed id) s;
  }

  unfoldable pub unlogged : S → LoggedState
  unfolding made_by
  unlogged s = record { start = s; log = []; state = s; made = refl }

  replay-log :
      (c : Change T) (later : List (Change T)) (s : LoggedState)
      → Among c s.log
      → Among c (replay logged later s).log
  unfolding replay log_change
  replay-log c [] s a = a
  replay-log c (updated_by t ∷ later) s a =
      replay-log c later (log_change (updated_by t) s) (there a)
  replay-log c (flushed id ∷ later) s a = replay-log c later (log_change (flushed id) s) (there a)

  Covers-log : (t : T) (s : LoggedState) → Covers logged s t → Among (updated_by t) s.log
  unfolding log_change
  Covers-log t s h =
      subst (λ (u : LoggedState). Among (updated_by t) u.log) h.outcome
        (replay-log (updated_by t) h.later (log_change (updated_by t) h.start) (here refl))

  module _ {K : Type 0} ⦃e : Eq K⦄ (restore : K → S) where
    abbrev pub started_logged : World logged (λ k. unlogged (restore k))
    started_logged = started logged (λ k. unlogged (restore k))

    abbrev pub run_logged : List (Event K T) → World logged (λ k. unlogged (restore k))
    run_logged evs = run logged (λ k. unlogged (restore k)) started_logged evs

    -- The log of a stored state has an update by each tick that a commit passed.
    pub committed-log :
        (evs : List (Event K T)) (k : K) (t : T)
        → Among (k, t) (run_logged evs).committed
        → Among (updated_by t) (saved logged (λ k. unlogged (restore k)) (run_logged evs) k).log
    committed-log evs k t a =
        Covers-log t _ (committed-Covers logged (λ k. unlogged (restore k)) evs k t a)
