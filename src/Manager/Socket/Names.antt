-- ===== src/Manager/Socket/Names.antt =====
-- The cache of names is all that the lookup of a name changes.
use udping.Base.{ℕ, ◌≡◌, refl, List, [], ◌∷◌}
use udping.Map.{find, insert}
use udping.Map.Keys.{nat_key}
use udping.Manager.{Manager}
use udping.Manager.Socket.{NameService, host_name, cached_name, looked_up}

module _ {D : Type 0} (names : NameService) where
  pub host_name-state :
      (address : ℕ) (m : Manager D)
      → (host_name names address m).1
        ≡ record m { host_map = (host_name names address m).1.host_map }
  unfolding host_name
  host_name-state address m = by_name (cached_name (find address m.host_map))
    where
      by_name :
          (o : List ℕ)
          → (elim o as (λ x. List ℕ × Manager D) [
            | [] ↦ (
              looked_up names address,
              record m { host_map = insert address (looked_up names address) m.host_map },
            )
            | c ∷ cs ↦ (c ∷ cs, m)
          ]).1
            ≡ record m {
              host_map =
                  (elim o as (λ x. List ℕ × Manager D) [
                    | [] ↦ (
                      looked_up names address,
                      record m { host_map = insert address (looked_up names address) m.host_map },
                    )
                    | c ∷ cs ↦ (c ∷ cs, m)
                  ]).1.host_map;
            }
      by_name [] = refl
      by_name (c ∷ cs) = refl
