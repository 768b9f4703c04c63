-- ===== src/Adapter/Ring/Lapped.antt =====
-- A push between the two halves of `Pop`: after it loaded the tail, before it reads the slot.
use market_tick_aggregator.Prelude.{
  ℕ, ◌+◌, ◌%◌, ◌≡◌, refl, sym, ap, ◌∙◌, List, length, arith, get_or-set_self,
}
use native.Mathlib.Nat.{mod-lt, add-mod_right}
use market_tick_aggregator.Adapter.Ring.{SpscDropOldestRing, push, overwritten, pop_at}
use market_tick_aggregator.Adapter.Ring.Queue.{Holds}

module _ {A : Type 0} (d : A) where
  -- If the producer pushes onto a full ring after `Pop` has loaded the tail and before it reads the
  -- slot, `Pop` returns the newest entry in place of the oldest and reports no drop, and the newest
  -- entry is still ahead of the head, so that it is returned a second time.
  pub lapped-pop_at :
      (r : SpscDropOldestRing A) (q : List A) (v : A)
      → Holds d r q
      → length q ≡ r.capacity
      → ((pop_at d r.tail (push d v r)).0 ≡ v)
        × ((pop_at d r.tail (push d v r)).2 ≡ 0)
        × ((pop_at d r.tail (push d v r)).3.head + length q ≡ (pop_at d r.tail (push d v r)).3.tail)
  unfolding pop_at push
  lapped-pop_at r q v h full =
      let none_dropped : overwritten d r.tail (push d v r) ≡ 0 =
        unfold push in ground (arith, h.counted) in
      let same_slot : (r.head + 0) % r.capacity ≡ r.tail % r.capacity =
        ap (λ (j : ℕ). j % r.capacity) (omega arith)
        ∙ sym (add-mod_right r.head r.capacity)
        ∙ ap (λ (j : ℕ). j % r.capacity) (omega (arith, h.counted)) in
      rw (none_dropped) (
        rw same_slot (
            get_or-set_self r.buf (r.tail % r.capacity) v d
              (rw h.sized (mod-lt r.tail h.positive))),
        refl,
        omega (arith, h.counted),
      )
