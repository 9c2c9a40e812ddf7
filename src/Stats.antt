-- ===== src/Stats.antt =====
-- `Stats` of src/stats.cc. There are no floating-point numbers here: the type `double` and its
-- operations are a parameter, and what a theorem needs of `<` is a hypothesis.
pub mod Laws
use udping.Base.{ℕ, ◌+◌, ◌≡◌, Bool, true, false, if◌then◌else◌, List, [], ◌∷◌, u32}

-- The operations of `double` that the program uses; `lowest` is -DBL_MAX.
pub record DoubleOps (D : Type 0) : Type 0 where
  pub of_int : ℕ → D
  pub lowest : D
  pub add : D → D → D
  pub sub : D → D → D
  pub mul : D → D → D
  pub div : D → D → D
  pub lt : D → D → Bool

-- The comparison on the values that are not NaN: a strict order.
pub record IsOrdered {D : Type 0} (ops : DoubleOps D) : Type 0 where
  pub lt_irrefl : (a : D) → ops.lt a a ≡ false
  pub lt_trans : (a b c : D) → ops.lt a b ≡ true → ops.lt b c ≡ true → ops.lt a c ≡ true

pub record Stats (D : Type 0) : Type 0 where
  pub target_count : ℕ
  pub count : ℕ
  pub sum : D
  pub sum_of_squares : D
  pub max : D

module _ {D : Type 0} (ops : DoubleOps D) where
  unfoldable pub init : Stats D
  init = record {
    target_count = 0;
    count = 0;
    sum = ops.of_int 0;
    sum_of_squares = ops.of_int 0;
    max = ops.lowest;
  }

  -- The new counters, with the int `count` as its 32 bits, and the count that the method returns.
  unfoldable pub add_data_point : Stats D → D → Stats D × ℕ
  add_data_point s datapoint = (
    record s {
      count = u32 (s.count + 1);
      sum = ops.add s.sum datapoint;
      sum_of_squares = ops.add s.sum_of_squares (ops.mul datapoint datapoint);
      max = if ops.lt s.max datapoint then datapoint else s.max;
    },
    u32 (s.count + 1),
  )

  -- The calls of `addDataPoint` for a list of points, in order.
  unfoldable pub add_all : Stats D → List D → Stats D
  unfolding add_data_point
  add_all s [] = s
  add_all s (d ∷ ds) = add_all (add_data_point s d).0 ds
