-- ===== src/Map/Keys.antt =====
-- The keys of the program's maps: addresses, and strings by `std::string`'s order on bytes.
use udping.Base.{
  ℕ, ◌≡◌, ◌↔◌, refl, Bool, true, false, ◌&&◌, ◌||◌, List, [], ◌∷◌, ltb, ◌==◌, ==_iff, arith,
}
use udping.Map.{Key}

abbrev pub str_same : List ℕ → List ℕ → Bool
str_same [] [] = true
str_same [] (b ∷ bs) = false
str_same (a ∷ as1) [] = false
str_same (a ∷ as1) (b ∷ bs) = a == b && str_same as1 bs

abbrev pub str_before : List ℕ → List ℕ → Bool
str_before as1 [] = false
str_before [] (b ∷ bs) = true
str_before (a ∷ as1) (b ∷ bs) = ltb a b || (a == b && str_before as1 bs)

str_same_refl : (s : List ℕ) → str_same s s ≡ true
str_same_refl [] = refl
str_same_refl (a ∷ s) = ground (arith, str_same_refl s)

str_same-eq : (s t : List ℕ) → str_same s t ≡ true → s ≡ t
str_same-eq [] [] h = refl
str_same-eq [] (b ∷ t) h = cc
str_same-eq (a ∷ s) [] h = cc
str_same-eq (a ∷ s) (b ∷ t) h = ground (arith, str_same-eq s t)

pub str_same_iff : (s t : List ℕ) → (str_same s t ≡ true) ↔ (s ≡ t)
str_same_iff s t = (str_same-eq s t, λ e. rw e (str_same_refl t))

pub str_before_irrefl : (s : List ℕ) → str_before s s ≡ false
str_before_irrefl [] = refl
str_before_irrefl (a ∷ s) = ground (arith, str_before_irrefl s)

pub str_before_trans :
    (s t u : List ℕ) → str_before s t ≡ true → str_before t u ≡ true → str_before s u ≡ true
str_before_trans [] [] u h k = cc
str_before_trans (a ∷ s) [] u h k = cc
str_before_trans [] (b ∷ t) [] h k = cc
str_before_trans (a ∷ s) (b ∷ t) [] h k = cc
str_before_trans [] (b ∷ t) (c ∷ u) h k = refl
str_before_trans (a ∷ s) (b ∷ t) (c ∷ u) h k = ground (arith, str_before_trans s t u)

pub str_before_total :
    (s t : List ℕ) → str_same s t ≡ false → str_before s t ≡ false → str_before t s ≡ true
str_before_total [] [] h k = cc
str_before_total [] (b ∷ t) h k = cc
str_before_total (a ∷ s) [] h k = refl
str_before_total (a ∷ s) (b ∷ t) h k = ground (arith, str_before_total s t)

instance abbrev pub string_key : Key (List ℕ)
string_key = record {
  same = str_same;
  before = str_before;
  same_iff = str_same_iff;
  before_irrefl = str_before_irrefl;
  before_trans = str_before_trans;
  before_total = str_before_total;
}

pub ltb_irrefl : (a : ℕ) → ltb a a ≡ false
ltb_irrefl a = ground arith

pub ltb_trans : (a b c : ℕ) → ltb a b ≡ true → ltb b c ≡ true → ltb a c ≡ true
ltb_trans a b c h k = ground arith

pub ltb_total : (a b : ℕ) → (a == b) ≡ false → ltb a b ≡ false → ltb b a ≡ true
ltb_total a b h k = ground arith

instance abbrev pub nat_key : Key ℕ
nat_key = record {
  same = ◌==◌;
  before = ltb;
  same_iff = ==_iff;
  before_irrefl = ltb_irrefl;
  before_trans = ltb_trans;
  before_total = ltb_total;
}
