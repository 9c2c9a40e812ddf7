-- ===== src/Map.antt =====
-- std::map: the entries in ascending order of their keys.
pub mod Keys
pub mod Laws
use udping.Base.{ℕ, ◌≡◌, ◌↔◌, Bool, true, false, List, [], ◌∷◌, Option, none, some, if◌then◌else◌}

-- What the map needs of its keys: an equality test and a strict total order.
pub record Key (K : Type 0) : Type 0 where
  pub same : K → K → Bool
  pub before : K → K → Bool
  pub same_iff : (a b : K) → (same a b ≡ true) ↔ (a ≡ b)
  pub before_irrefl : (a : K) → before a a ≡ false
  pub before_trans : (a b c : K) → before a b ≡ true → before b c ≡ true → before a c ≡ true
  pub before_total : (a b : K) → same a b ≡ false → before a b ≡ false → before b a ≡ true

abbrev pub Map : Type 0 → Type 0 → Type 0
Map K V = List (K × V)

module _ {K V : Type 0} ⦃k : Key K⦄ where
  unfoldable pub find : K → Map K V → Option V
  find key [] = none
  find key ((j, v) ∷ m) = if k.same j key then some v else find key m

  -- Assignment through `operator[]`.
  unfoldable pub insert : K → V → Map K V → Map K V
  insert key v [] = (key, v) ∷ []
  insert key v ((j, w) ∷ m) =
      if k.same j key
      then (key, v) ∷ m
      else if k.before key j
      then (key, v) ∷ (j, w) ∷ m
      else (j, w) ∷ insert key v m

  unfoldable pub erase : K → Map K V → Map K V
  erase key [] = []
  erase key ((j, w) ∷ m) = if k.same j key then erase key m else (j, w) ∷ erase key m
