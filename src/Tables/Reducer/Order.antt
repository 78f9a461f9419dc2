-- ===== src/Tables/Reducer/Order.antt =====
-- The order by which a new cell wins over a stored one is a strict total order, and the statements
-- keep the greater of the two cells.
use ubiquisync.Prelude.{◌≡◌, refl, arith, Bool, true, false, ◌||◌}
use ubiquisync.Prelude.{Option, none, some, if◌then◌else◌}
use ubiquisync.Tables.Op.{Compare}
use ubiquisync.Tables.Reducer.{Cell, sql_gt, only_new, wins, merge_cell}

module _ {V : Type 0} (db : Compare V) where
  -- NULL is below every value.
  value_gt : Option V → Option V → Bool
  value_gt a b = sql_gt db a b || only_new db a b

  value_irrefl : (a : Option V) → value_gt a a ≡ false
  unfolding value_gt
  value_irrefl none = refl
  value_irrefl (some a) = rw (db.gt_irrefl a)

  value_trans : (a b c : Option V) → value_gt a b ≡ true → value_gt b c ≡ true → value_gt a c ≡ true
  unfolding value_gt
  value_trans none b c h k = cc
  value_trans (some a) none c h k = cc
  value_trans (some a) (some b) none h k = refl
  value_trans (some a) (some b) (some c) h k = ground (arith, db.gt_trans a b c)

  value_total : (a b : Option V) → value_gt a b ≡ false → value_gt b a ≡ false → a ≡ b
  unfolding value_gt
  value_total none none h k = refl
  value_total none (some b) h k = cc
  value_total (some a) none h k = cc
  value_total (some a) (some b) h k = ground (arith, db.gt_total a b)

  pub wins_irrefl : (a : Cell V) → wins db a a ≡ false
  unfolding wins value_gt
  wins_irrefl a = ground (arith, value_irrefl a.value)

  pub wins_trans : (a b c : Cell V) → wins db a b ≡ true → wins db b c ≡ true → wins db a c ≡ true
  unfolding wins value_gt
  wins_trans a b c h k = ground (arith, value_trans a.value b.value c.value)

  pub wins_total : (a b : Cell V) → wins db a b ≡ false → wins db b a ≡ false → a ≡ b
  unfolding wins value_gt
  wins_total a b h k = ground (arith, value_total a.value b.value)

  -- The greater cell.
  unfoldable pub join : Cell V → Cell V → Cell V
  join new old = if wins db new old then new else old

  -- The SET clauses of a column keep the greater cell whole, value and timestamp.
  pub merge_cell-join : (new old : Cell V) → merge_cell db new old ≡ join new old
  unfolding merge_cell join wins
  merge_cell-join new old = ground arith

  -- The order in which two writes reach a cell does not matter.
  pub join_comm : (a b c : Cell V) → join a (join b c) ≡ join b (join a c)
  unfolding join
  join_comm a b c = ground (
    arith,
    wins_trans a b c,
    wins_trans b a c,
    wins_trans a c b,
    wins_trans b c a,
    wins_trans c a b,
    wins_trans c b a,
    wins_trans a b a,
    wins_irrefl a,
    wins_total a b,
  )

  pub join_idem : (a c : Cell V) → join a (join a c) ≡ join a c
  unfolding join
  join_idem a c = ground (arith, wins_irrefl a)
