-- ===== src/Manager/Steps.antt =====
-- The steps that `receivePing` is made of, one by one, keep the invariant.
use mathlib.Core.Path.{subst₂}
use udping.Base.{ℕ, ◌+◌, ◌<◌, ◌≡◌, ◌∙◌, List, some, arith, inl, inr, ℕ_discrete, subst}
use udping.Map.{find, insert}
use udping.Map.Keys.{string_key, nat_key}
use udping.Map.Laws.{find-insert-some, find-insert_ne, find-insert_self, insert-IsSorted}
use udping.Session.{ServerSession}
use udping.Manager.{Manager, store}
use udping.Manager.WellFormed.{IsWellFormed, IsLive}

module _ {D : Type 0} where
  store-IsLive :
      (m : Manager D) (a : ℕ) (s s' : ServerSession D)
      → find a m.heap ≡ some s
      → s'.guid ≡ s.guid
      → (g : List ℕ) (b : ℕ) → IsLive m g b
      → IsLive (store a s' m) g b
  unfolding store
  store-IsLive m a s s' held same g b (pos, (t, e, named)) = elim (ℕ_discrete a b) [
    | yes q ↦ (
      pos,
      (
        s',
        subst (λ x. find x (insert a s' m.heap) ≡ some s') q (find-insert_self a s' m.heap),
        same ∙ cc,
      ),
    )
    | no n ↦ (pos, (t, find-insert_ne a b s' m.heap n ∙ e, named))
  ]

  -- Writing to a live session, under the same guid.
  pub store-IsWellFormed :
      (m : Manager D) (a : ℕ) (s s' : ServerSession D)
      → IsWellFormed m
      → find a m.heap ≡ some s
      → s'.guid ≡ s.guid
      → IsWellFormed (store a s' m)
  unfolding store
  store-IsWellFormed m a s s' w held same = record {
    sorted = w.sorted;
    live = λ g b e. store-IsLive m a s s' held same g b (w.live g b e);
    allocated = λ b t e. elim (find-insert-some a b s' t m.heap e) [
      | inl (q, _) ↦ subst (λ x. x < m.next_address) q (w.allocated a s held)
      | inr (_, old) ↦ w.allocated b t old
    ];
    positive = w.positive;
    sources = w.sources;
  }

  -- A new object at the next free address.
  unfoldable pub allocated_state : ServerSession D → Manager D → Manager D
  allocated_state ds m = record (store m.next_address ds m) { next_address = m.next_address + 1 }

  pub allocated_state-IsWellFormed :
      (ds : ServerSession D) (m : Manager D) → IsWellFormed m → IsWellFormed (allocated_state ds m)
  unfolding allocated_state store
  allocated_state-IsWellFormed ds m w = record {
    sorted = w.sorted;
    live = λ g b e.
        let (pos, (t, held, named)) = w.live g b e in
        let below = w.allocated b t held in
        (pos, (t, find-insert_ne m.next_address b ds m.heap (omega arith) ∙ held, named));
    allocated = λ b t e. elim (find-insert-some m.next_address b ds t m.heap e) [
      | inl (q, _) ↦ omega arith
      | inr (_, old) ↦ omega (arith, w.allocated b t old)
    ];
    positive = omega arith;
    sources = λ k a e. omega (arith, w.sources k a e);
  }

  -- The new session under its guid and its source.
  abbrev pub registered_state : List ℕ → List ℕ → ℕ → Manager D → Manager D
  registered_state guid source address m = record m {
    session_map = insert guid address m.session_map;
    source_map = insert source address m.source_map;
  }

  pub registered_state-IsWellFormed :
      (guid source : List ℕ) (address : ℕ) (m : Manager D)
      → IsWellFormed m
      → IsLive m guid address
      → IsWellFormed (registered_state guid source address m)
  registered_state-IsWellFormed guid source address m w here = record {
    sorted = insert-IsSorted guid address m.session_map w.sorted;
    live = λ g b e. elim (find-insert-some guid g address b m.session_map e) [
      | inl (q, r) ↦ subst₂ (λ x y. IsLive m x y) q r here
      | inr (_, old) ↦ w.live g b old
    ];
    allocated = w.allocated;
    positive = w.positive;
    sources = λ k a e. elim (find-insert-some source k address a m.source_map e) [
      | inl (q, r) ↦
          subst (λ x. (0 < x) × (x < m.next_address)) r
            (here.0, w.allocated address here.1.0 here.1.1)
      | inr (_, old) ↦ w.sources k a old
    ];
  }
