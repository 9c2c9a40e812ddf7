-- ===== src/Map/Laws.antt =====
-- What a lookup finds after an insertion or an erasure, and that the entries stay in order.
use mathlib.Core.Path.{subst₂}
use udping.Base.{
  ◌≡◌, refl, true, false, [], ◌∷◌, none, some, if◌then◌else◌, arith, All, Bool-cases, inl, inr, ◌≢◌,
  ◌⊎◌, All-zip,
}
use udping.Map.{Key, Map, find, insert, erase}

module _ {K : Type 0} ⦃k : Key K⦄ where
  same-false : (i j : K) → i ≢ j → k.same i j ≡ false
  same-false i j h = ground (arith, k.same_iff i j)

module _ {K V : Type 0} ⦃k : Key K⦄ where
  pub find-insert :
      (i j : K) (v : V) (m : Map K V)
      → find j (insert i v m) ≡ (if k.same i j then some v else find j m)
  unfolding find insert
  find-insert i j v [] = refl
  find-insert i j v ((a, w) ∷ m) =
      ground (arith, k.same_iff i j, k.same_iff a i, k.same_iff a j, find-insert i j v m)

  pub find-erase :
      (i j : K) (m : Map K V) → find j (erase i m) ≡ (if k.same i j then none else find j m)
  unfolding find erase
  find-erase i j [] = ground arith
  find-erase i j ((a, w) ∷ m) =
      ground (arith, k.same_iff i j, k.same_iff a i, k.same_iff a j, find-erase i j m)

  pub find-insert_self : (i : K) (v : V) (m : Map K V) → find i (insert i v m) ≡ some v
  find-insert_self i v m = rw (find-insert i i v m, (k.same_iff i i).1 refl)

  pub insert_twice : (i : K) (v w : V) (m : Map K V) → insert i v (insert i w m) ≡ insert i v m
  unfolding insert
  insert_twice i v w [] = ground (arith, k.same_iff i i)
  insert_twice i v w ((a, x) ∷ m) = ground (arith, k.same_iff i i, insert_twice i v w m)

  -- Every key comes after `i`.
  abbrev pub IsAfter : K → Map K V → Type 0
  IsAfter i = All (λ e. k.before i e.0 ≡ true)

  abbrev pub IsSorted : Map K V → Type 0
  IsSorted [] = Unit
  IsSorted ((i, v) ∷ m) = IsAfter i m × IsSorted m

  IsAfter-trans : (i j : K) (m : Map K V) → k.before i j ≡ true → IsAfter j m → IsAfter i m
  IsAfter-trans i j [] h a = tt
  IsAfter-trans i j (e ∷ m) h a = (k.before_trans i j e.0 h a.0, IsAfter-trans i j m h a.1)

  insert-IsAfter :
      (i j : K) (v : V) (m : Map K V) → k.before i j ≡ true → IsAfter i m → IsAfter i (insert j v m)
  unfolding insert
  insert-IsAfter i j v [] h a = (h, tt)
  insert-IsAfter i j v ((x, w) ∷ m) h a = ground (arith, insert-IsAfter i j v m h a.1)

  pub insert-IsSorted : (i : K) (v : V) (m : Map K V) → IsSorted m → IsSorted (insert i v m)
  unfolding insert
  insert-IsSorted i v [] s = (tt, tt)
  insert-IsSorted i v ((x, w) ∷ m) s = ground (
    arith,
    k.same_iff x i,
    k.before_total i x,
    k.same_iff i x,
    IsAfter-trans i x m,
    insert-IsAfter x i v m,
    insert-IsSorted i v m s.1,
  )

  erase-IsAfter : (i j : K) (m : Map K V) → IsAfter i m → IsAfter i (erase j m)
  unfolding erase
  erase-IsAfter i j [] a = tt
  erase-IsAfter i j ((x, w) ∷ m) a = ground (arith, erase-IsAfter i j m a.1)

  pub erase-IsSorted : (i : K) (m : Map K V) → IsSorted m → IsSorted (erase i m)
  unfolding erase
  erase-IsSorted i [] s = tt
  erase-IsSorted i ((x, w) ∷ m) s = ground (arith, erase-IsAfter x i m s.0, erase-IsSorted i m s.1)

  pub find-insert_ne : (i j : K) (v : V) (m : Map K V) → i ≢ j → find j (insert i v m) ≡ find j m
  find-insert_ne i j v m h = rw (find-insert i j v m, same-false i j h)

  pub find-erase_ne : (i j : K) (m : Map K V) → i ≢ j → find j (erase i m) ≡ find j m
  find-erase_ne i j m h = rw (find-erase i j m, same-false i j h)

  pub find-erase_self : (i : K) (m : Map K V) → find i (erase i m) ≡ none
  find-erase_self i m = rw (find-erase i i m, (k.same_iff i i).1 refl)

  -- What is found after an erasure was there before, under another key.
  pub find-erase-some :
      (i j : K) (v : V) (m : Map K V) → find j (erase i m) ≡ some v → (i ≢ j) × (find j m ≡ some v)
  find-erase-some i j v m h = ground (arith, find-erase i j m, k.same_iff i j)

  -- What is found after an insertion is what was inserted, or was there before.
  pub find-insert-some :
      (i j : K) (v w : V) (m : Map K V)
      → find j (insert i v m) ≡ some w
      → ((i ≡ j) × (v ≡ w)) ⊎ ((i ≢ j) × (find j m ≡ some w))
  find-insert-some i j v w m h = ground (arith, find-insert i j v m, k.same_iff i j)

  pub find-insert-none :
      (i j : K) (v : V) (m : Map K V) → find j (insert i v m) ≡ none → (i ≢ j) × (find j m ≡ none)
  find-insert-none i j v m h = ground (arith, find-insert i j v m, k.same_iff i j)

  -- In order, each entry is the one that a lookup of its key finds.
  pub sorted-entries : (m : Map K V) → IsSorted m → All (λ e. find e.0 m ≡ some e.1) m
  unfolding find
  sorted-entries [] s = tt
  sorted-entries ((i, v) ∷ m) s = (
    rw ((k.same_iff i i).1 refl),
    All-zip (λ e after found. ground (arith, k.same_iff i e.0, k.before_irrefl i, after, found)) m
        s.0 (sorted-entries m s.1),
  )

  -- What holds of every entry holds of the one that a lookup finds.
  pub All-find :
      (P : K × V → Type 0) (i : K) (v : V) (m : Map K V) → All P m → find i m ≡ some v → P (i, v)
  unfolding find
  All-find P i v [] h e = cc
  All-find P i v ((j, w) ∷ m) h e = elim (Bool-cases (k.same j i)) [
    | inl hit ↦ subst₂ (λ x y. P (x, y)) ((k.same_iff j i).0 hit) (ground (arith, hit, e)) h.0
    | inr miss ↦ All-find P i v m h.1 (ground (arith, miss, e))
  ]
