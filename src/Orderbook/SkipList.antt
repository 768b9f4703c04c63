-- ===== src/Orderbook/SkipList.antt =====
-- orderbook/orderedtree/skiplist/skiplist.go. The heap is one function for each field of a node: a
-- node's name is a number, and a write changes the function at that name. A pointer that was never
-- written is nil. The random source is the sequence of outcomes of `rand.Float64() < p`.
pub mod Cells
pub mod Chain
pub mod Find
pub mod Link
pub mod Insert
pub mod Inserting
pub mod Put
pub mod Update
pub mod Insertion
pub mod Unlink
pub mod Delete
pub mod Deletion
pub mod Iterate
pub mod Tree
pub mod Get
pub mod Run
mod Tests
use market_tick_aggregator.Prelude.{
  ℕ, zero, suc, ◌+◌, ◌-◌, ◌≡◌, ◌↔◌, Bool, true, false, List, [], ◌∷◌, Option, none, some,
  if◌then◌else◌, ltb, Eq, ◌==◌, nat_eq, ◌&&◌, ◌||◌, not, arith, is_some,
}
use market_tick_aggregator.Orderbook.OrderedTree.{PriceOrder, Levels, below}

-- *Node
pub data Ref : Type 0 where
  nil head : Ref
  node : ℕ → Ref

abbrev pub ref_beq : Ref → Ref → Bool
ref_beq nil nil = true
ref_beq head head = true
ref_beq (node m) (node n) = m == n
ref_beq nil head = false
ref_beq nil (node n) = false
ref_beq head nil = false
ref_beq head (node n) = false
ref_beq (node m) nil = false
ref_beq (node m) head = false

pub ref_beq_iff : (a b : Ref) → (ref_beq a b ≡ true) ↔ (a ≡ b)
ref_beq_iff nil nil = (λ h. ground arith, λ h. ground arith)
ref_beq_iff head head = (λ h. ground arith, λ h. ground arith)
ref_beq_iff (node m) (node n) = (λ h. ground arith, λ h. ground arith)
ref_beq_iff nil head = (λ h. cc h, λ h. cc h)
ref_beq_iff nil (node n) = (λ h. cc h, λ h. cc h)
ref_beq_iff head nil = (λ h. cc h, λ h. cc h)
ref_beq_iff head (node n) = (λ h. cc h, λ h. cc h)
ref_beq_iff (node m) nil = (λ h. cc h, λ h. cc h)
ref_beq_iff (node m) head = (λ h. cc h, λ h. cc h)

instance abbrev pub ref_eq : Eq Ref
ref_eq = record { test = ref_beq; sound = ref_beq_iff }

abbrev pub max_level : ℕ
max_level = 16

pub record SkipList (P Q : Type 0) : Type 0 where
  pub entry : Ref → Option (P × Q)
  pub forward : Ref → ℕ → Ref
  pub prev : Ref → Ref
  pub tail : Ref
  pub level : ℕ
  pub size : ℕ
  pub allocated : ℕ
  pub flips : ℕ → Bool
  pub flipped : ℕ

-- for rand.Float64() < p && lvl < maxLevel
unfoldable pub flip_levels : ℕ → (ℕ → Bool) → ℕ → ℕ → ℕ × ℕ
flip_levels zero flips at lvl = (lvl, at + 1)
flip_levels (suc left) flips at lvl =
    let rest = flip_levels left flips (at + 1) (lvl + 1) in if flips at then rest else (lvl, at + 1)

-- The level, and the outcomes used: the loop flips once more at the highest level.
unfoldable pub random_level : (ℕ → Bool) → ℕ → ℕ × ℕ
random_level flips at = flip_levels (max_level - 1) flips at 1

-- for s.level > 1 && s.head.forward[s.level-1] == nil
unfoldable pub lower_level : (Ref → ℕ → Ref) → ℕ → ℕ
lower_level forward zero = zero
lower_level forward (suc zero) = suc zero
lower_level forward (suc (suc l)) =
    let rest = lower_level forward (suc l) in
    if forward head (suc l) == nil then rest else suc (suc l)

module _ {P Q : Type 0} where
  unfoldable pub new_skip_list : (ℕ → Bool) → SkipList P Q
  new_skip_list flips = record {
    entry = λ r. none;
    forward = λ r i. nil;
    prev = λ r. nil;
    tail = nil;
    level = 1;
    size = 0;
    allocated = 0;
    flips = flips;
    flipped = 0;
  }

  -- r.forward[i] = v, and r.prev = v
  unfoldable pub set_forward : Ref → ℕ → Ref → SkipList P Q → SkipList P Q
  set_forward r i v s = record s {
    forward = λ q j. if (q == r) && (j == i) then v else s.forward q j;
  }

  unfoldable pub set_prev : Ref → Ref → SkipList P Q → SkipList P Q
  set_prev r v s = record s { prev = λ q. if q == r then v else s.prev q }

  unfoldable pub set_entry : Ref → P × Q → SkipList P Q → SkipList P Q
  set_entry r v s = record s { entry = λ q. if q == r then some v else s.entry q }

  -- &Node{key, value, forward: make([]*Node, lvl)}: its pointers are nil
  unfoldable pub allocate : P × Q → SkipList P Q → SkipList P Q
  allocate v s =
      let new = node s.allocated in
      record s {
        entry = λ q. if q == new then some v else s.entry q;
        forward = λ q j. if q == new then nil else s.forward q j;
        prev = λ q. if q == new then nil else s.prev q;
        allocated = s.allocated + 1;
      }

  -- for i := 0; i < lvl; i++: the new node goes behind update[i]
  unfoldable pub link : ℕ → Ref → (ℕ → Ref) → SkipList P Q → SkipList P Q
  link zero new update s = s
  link (suc i) new update s =
      let s' = link i new update s in
      set_forward (update i) i new (set_forward new i (s'.forward (update i) i) s')

  -- the node behind the new one, or the tail
  unfoldable pub place_before : Ref → Ref → SkipList P Q → SkipList P Q
  place_before next new s = if next == nil then record s { tail = new } else set_prev next new s

  -- for i < s.level, until a level at which the node is not there; `left` levels are still to go
  unfoldable pub unlink : ℕ → ℕ → Ref → (ℕ → Ref) → SkipList P Q → SkipList P Q
  unlink zero i found update s = s
  unlink (suc left) i found update s =
      let rest =
        unlink left (i + 1) found update (set_forward (update i) i (s.forward found i) s) in
      if s.forward (update i) i == found then rest else s

  -- the node behind the one that goes, or the tail
  unfoldable pub replace_before : Ref → Ref → SkipList P Q → SkipList P Q
  replace_before next last s =
      if next == nil
      then record s { tail = if last == head then nil else last }
      else set_prev next last s

module _ {P Q : Type 0} ⦃e : Eq P⦄ ⦃o : PriceOrder P⦄ where
  abbrev pub entry_below : Option (P × Q) → P → Bool
  entry_below none key = false
  entry_below (some (p, q)) key = below p key

  abbrev pub entry_has : Option (P × Q) → P → Bool
  entry_has none key = false
  entry_has (some (p, q)) key = p == key

  -- r != nil && r.key < key
  abbrev pub key_below : SkipList P Q → Ref → P → Bool
  key_below s r key = entry_below (s.entry r) key

  -- The inner loop of find; at most `fuel` nodes are passed.
  unfoldable pub walk : ℕ → SkipList P Q → ℕ → P → Ref → Ref
  walk zero s i key curr = curr
  walk (suc fuel) s i key curr =
      let rest = walk fuel s i key (s.forward curr i) in
      if key_below s (s.forward curr i) key then rest else curr

  -- The outer loop, from the level below `i`. Each node is passed once at most on a level, so there are
  -- no more passes than nodes.
  unfoldable pub find_from : ℕ → SkipList P Q → P → Ref → (ℕ → Ref) → Ref × (ℕ → Ref)
  find_from zero s key curr update = (curr, update)
  find_from (suc i) s key curr update =
      let next = walk s.size s i key curr in
      find_from i s key next (λ j. if j == i then next else update j)

  -- the node found, and `update`
  unfoldable pub find : SkipList P Q → P → Ref × (ℕ → Ref)
  find s key =
      let (curr, update) = find_from s.level s key head (λ j. nil) in (s.forward curr 0, update)

  -- node != nil && node.key == key
  abbrev pub has_key : SkipList P Q → Ref → P → Bool
  has_key s r key = entry_has (s.entry r) key

  unfoldable pub get : SkipList P Q → P → Option Q
  get s key =
      let found = (find s key).0 in
      if has_key s found key
      then elim (s.entry found) [ none ↦ none | some (p, q) ↦ some q ]
      else none

  -- the first node: it is linked at the lowest level only
  unfoldable pub insert_first : P → Q → SkipList P Q → SkipList P Q
  insert_first key value s =
      let new = node s.allocated in
      record (set_prev new head (set_forward head 0 new (allocate (key, value) s))) {
        tail = new;
        size = s.size + 1;
      }

  unfoldable pub insert_between : P → Q → ℕ → (ℕ → Ref) → SkipList P Q → SkipList P Q
  insert_between key value lvl update s =
      let new = node s.allocated in
      let s' = allocate (key, value) s in
      let next = s'.forward (update 0) 0 in
      record (set_prev new (update 0) (place_before next new (link lvl new update s'))) {
        size = s.size + 1;
      }

  unfoldable pub insert : P → Q → SkipList P Q → SkipList P Q × Bool
  insert key value s =
      let (found, update) = find s key in
      if has_key s found key
      then (set_entry found (key, value) s, false)
      else let (lvl, flipped) = random_level s.flips s.flipped in
        let raised = λ (j : ℕ). if not (ltb j s.level) && ltb j lvl then head else update j in
        (
          let s' = record s {
            flipped = flipped;
            level = if ltb s.level lvl then lvl else s.level;
          } in
              if s.size == 0
              then insert_first key value s'
              else insert_between key value lvl raised s',
          true,
        )

  unfoldable pub delete_node : Ref → (ℕ → Ref) → SkipList P Q → SkipList P Q
  delete_node found update s =
      let unlinked = unlink s.level 0 found update s in
      let placed = replace_before (unlinked.forward found 0) (update 0) unlinked in
      record placed { level = lower_level placed.forward placed.level; size = placed.size - 1 }

  unfoldable pub delete : P → SkipList P Q → SkipList P Q × Bool
  delete key s =
      let (found, update) = find s key in
      if has_key s found key then (delete_node found update s, true) else (s, false)

module _ {P Q : Type 0} where
  unfoldable pub least : SkipList P Q → Option (P × Q)
  least s = s.entry (s.forward head 0)

  unfoldable pub greatest : SkipList P Q → Option (P × Q)
  greatest s = if s.tail == nil then none else s.entry s.tail

  -- no node, no level
  abbrev pub yield_level : Option (P × Q) → Levels P Q → Levels P Q
  yield_level none rest = []
  yield_level (some level) rest = level ∷ rest

  -- The levels that an iterator gives, from its current node on: SkipListIterator follows forward[0].
  unfoldable pub iterate : ℕ → SkipList P Q → Ref → Levels P Q
  iterate zero s r = []
  iterate (suc fuel) s r = let rest = iterate fuel s (s.forward r 0) in yield_level (s.entry r) rest

  -- SkipListReverseIterator follows prev, and ends at the head, which has none.
  unfoldable pub iterate_back : ℕ → SkipList P Q → Ref → Levels P Q
  iterate_back zero s r = []
  iterate_back (suc fuel) s r =
      let rest = iterate_back fuel s (s.prev r) in
      if (r == nil) || (s.prev r == nil) then [] else yield_level (s.entry r) rest

  unfoldable pub ascending : SkipList P Q → Levels P Q
  ascending s = iterate s.size s (s.forward head 0)

  unfoldable pub descending : SkipList P Q → Levels P Q
  descending s = iterate_back s.size s s.tail
