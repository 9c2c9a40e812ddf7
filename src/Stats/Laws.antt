-- ===== src/Stats/Laws.antt =====
-- What the counters hold after any run of data points.
use mathlib.Core.List.{foldl}
use udping.Base.{
  ◌+◌, ◌^◌, ◌<◌, ◌≡◌, refl, ◌⊎◌, inl, inr, false, List, [], ◌∷◌, length, u32, arith, All, ◌∙◌,
}
use udping.Stats.{DoubleOps, IsOrdered, Stats, add_data_point, add_all}

module _ {D : Type 0} (ops : DoubleOps D) where
  -- Each counter after a run of points: the number of the points in 32 bits, the sum and the sum of squares
  -- added up in the order of arrival, and the target count unchanged.
  pub add_all-counters :
      (s : Stats D) (ds : List D)
      → s.count < 2 ^ 32
      → ((add_all ops s ds).count ≡ u32 (s.count + length ds))
        × ((add_all ops s ds).sum ≡ foldl ops.add s.sum ds)
        × ((add_all ops s ds).sum_of_squares
            ≡ foldl (λ acc d. ops.add acc (ops.mul d d)) s.sum_of_squares ds)
        × ((add_all ops s ds).target_count ≡ s.target_count)
  unfolding add_all add_data_point
  add_all-counters s [] h = (omega arith, refl, refl, refl)
  add_all-counters s (d ∷ ds) h =
      let ih = add_all-counters (add_data_point ops s d).0 ds (omega arith) in
      (omega (arith, ih.0), ih.1, ih.2, ih.3)

  -- The value is one of the list.
  abbrev pub Occurs : D → List D → Type 0
  Occurs x [] = ⊥
  Occurs x (d ∷ ds) = (x ≡ d) ⊎ Occurs x ds

  add_data_point-max :
      (s : Stats D) (d : D)
      → ((add_data_point ops s d).0.max ≡ d) ⊎ ((add_data_point ops s d).0.max ≡ s.max)
  unfolding add_data_point
  add_data_point-max s d = ground arith

  add_all-Occurs :
      (s : Stats D) (ds : List D)
      → ((add_all ops s ds).max ≡ s.max) ⊎ Occurs (add_all ops s ds).max ds
  unfolding add_all
  add_all-Occurs s [] = inl refl
  add_all-Occurs s (d ∷ ds) =
      let s' = (add_data_point ops s d).0 in
      elim (add_all-Occurs s' ds) [
        | inl e ↦ elim (add_data_point-max s d) [ inl f ↦ inr (inl (e ∙ f)) | inr f ↦ inl (e ∙ f) ]
        | inr o ↦ inr (inr o)
      ]

  -- Nothing in the list is above `m`.
  abbrev pub IsAbove : D → List D → Type 0
  IsAbove m = All (λ d. ops.lt m d ≡ false)

  module _ (ord : IsOrdered ops) where
    max_keeps :
        (s : Stats D) (d x : D)
        → ops.lt s.max x ≡ false
        → ops.lt (add_data_point ops s d).0.max x ≡ false
    unfolding add_data_point
    max_keeps s d x h = ground (arith, ord.lt_trans s.max d x)

    max_covers : (s : Stats D) (d : D) → ops.lt (add_data_point ops s d).0.max d ≡ false
    unfolding add_data_point
    max_covers s d = ground (arith, ord.lt_irrefl d)

    add_all_keeps :
        (s : Stats D) (ds : List D) (x : D)
        → ops.lt s.max x ≡ false
        → ops.lt (add_all ops s ds).max x ≡ false
    unfolding add_all
    add_all_keeps s [] x h = h
    add_all_keeps s (d ∷ ds) x h = add_all_keeps (add_data_point ops s d).0 ds x (max_keeps s d x h)

    add_all-IsAbove : (s : Stats D) (ds : List D) → IsAbove (add_all ops s ds).max ds
    unfolding add_all
    add_all-IsAbove s [] = tt
    add_all-IsAbove s (d ∷ ds) =
        let s' = (add_data_point ops s d).0 in
        (add_all_keeps s' ds d (max_covers s d), add_all-IsAbove s' ds)

    -- The maximum after a run of points: none of the points is above it, and it is either one of
    -- the points or what it was before the run.
    pub add_all-max :
        (s : Stats D) (ds : List D)
        → IsAbove (add_all ops s ds).max ds
          × (((add_all ops s ds).max ≡ s.max) ⊎ Occurs (add_all ops s ds).max ds)
    add_all-max s ds = (add_all-IsAbove s ds, add_all-Occurs s ds)
