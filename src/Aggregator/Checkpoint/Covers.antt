-- ===== src/Aggregator/Checkpoint/Covers.antt =====
-- When a symbol's state holds a tick: it came out of an update by the tick, and of updates and flushes
-- since then.
use market_tick_aggregator.Prelude.{◌≡◌, refl, ap, ◌∙◌, List, [], ◌∷◌, ◌++◌}
use market_tick_aggregator.Kafka.{Text}
use market_tick_aggregator.Aggregator.Checkpoint.{Effects}

pub data Change (T : Type 0) : Type 0 where
  updated_by : T → Change T
  flushed : Text → Change T

module _ {S T : Type 0} (x : Effects S T) where
  abbrev pub change : Change T → S → S
  change (updated_by t) s = x.update t s
  change (flushed id) s = x.flush id s

  unfoldable pub replay : List (Change T) → S → S
  replay [] s = s
  replay (c ∷ changes) s = replay changes (change c s)

  pub record Covers (s : S) (t : T) : Type 0 where
    pub start : S
    pub later : List (Change T)
    pub outcome : replay later (x.update t start) ≡ s

  pub update-Covers : (t : T) (s : S) → Covers (x.update t s) t
  unfolding replay
  update-Covers t s = record { start = s; later = []; outcome = refl }

  replay-append :
      (changes : List (Change T)) (c : Change T) (s : S)
      → replay (changes ++ (c ∷ [])) s ≡ change c (replay changes s)
  unfolding replay
  replay-append [] c s = refl
  replay-append (d ∷ changes) c s = replay-append changes c (change d s)

  keeps_change : (c : Change T) (t : T) (s : S) → Covers s t → Covers (change c s) t
  keeps_change c t s h = record {
    start = h.start;
    later = h.later ++ (c ∷ []);
    outcome = replay-append h.later c (x.update t h.start) ∙ ap (change c) h.outcome;
  }

  pub keeps_update : (t u : T) (s : S) → Covers s t → Covers (x.update u s) t
  keeps_update t u s h = keeps_change (updated_by u) t s h

  pub keeps_flush : (id : Text) (t : T) (s : S) → Covers s t → Covers (x.flush id s) t
  keeps_flush id t s h = keeps_change (flushed id) t s h
