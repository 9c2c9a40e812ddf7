-- ===== src/Manager/Ledger/Laws.antt =====
-- What is found in a ledger after some time.
use udping.Base.{
  ℕ, ◌+◌, ◌≤◌, ◌≡◌, ◌≢◌, refl, sym, ◌∙◌, ltb, List, [], ◌∷◌, Option, none, some, Bool-cases, inl,
  inr, arith,
}
use udping.Map.{Map, find}
use udping.Map.Keys.{string_key}
use udping.Manager.Ledger.{fade, silence}

abbrev faded : ℕ → ℕ → Option (Option ℕ) → Option (Option ℕ)
faded keepalive now none = none
faded keepalive now (some o) = some (fade keepalive now o)

find-silence :
    (keepalive now : ℕ) (g : List ℕ) (gs : Map (List ℕ) (Option ℕ))
    → find g (silence keepalive now gs) ≡ faded keepalive now (find g gs)
unfolding find
find-silence keepalive now g [] = refl
find-silence keepalive now g ((i, o) ∷ gs) = elim (Bool-cases (string_key.same i g)) [
  | inl hit ↦ rw hit refl
  | inr miss ↦ rw miss (find-silence keepalive now g gs)
]

faded-awake :
    (keepalive now last : ℕ) (o : Option (Option ℕ))
    → faded keepalive now o ≡ some (some last)
    → (o ≡ some (some last)) × (now ≤ last + keepalive)
faded-awake keepalive now last none e = absurd (cc)
faded-awake keepalive now last (some none) e = absurd (cc)
faded-awake keepalive now last (some (some t)) e = elim (Bool-cases (ltb (t + keepalive) now)) [
  | inl late ↦ let stuck : some none ≡ some (some last) = rw late at e in absurd (cc)
  | inr timely ↦
      let one : some (some t) ≡ some (some last) = rw timely at e in
      let same : t ≡ last = cc in (one, ground arith)
]

faded-none : (keepalive now : ℕ) (o : Option (Option ℕ)) → faded keepalive now o ≡ none → o ≡ none
faded-none keepalive now none e = refl
faded-none keepalive now (some o) e = absurd (cc)

faded-some : (keepalive now : ℕ) (o : Option (Option ℕ)) → o ≢ none → faded keepalive now o ≢ none
faded-some keepalive now none ne = ne
faded-some keepalive now (some o) ne = λ e. absurd (cc)

module _ (keepalive now : ℕ) (g : List ℕ) (gs : Map (List ℕ) (Option ℕ)) where
  pub silence-awake :
      (last : ℕ)
      → find g (silence keepalive now gs) ≡ some (some last)
      → (find g gs ≡ some (some last)) × (now ≤ last + keepalive)
  silence-awake last e =
      faded-awake keepalive now last (find g gs) (sym (find-silence keepalive now g gs) ∙ e)

  pub silence-none : find g (silence keepalive now gs) ≡ none → find g gs ≡ none
  silence-none e = faded-none keepalive now (find g gs) (sym (find-silence keepalive now g gs) ∙ e)

  pub silence-some : find g gs ≢ none → find g (silence keepalive now gs) ≢ none
  silence-some ne e =
      faded-some keepalive now (find g gs) ne (sym (find-silence keepalive now g gs) ∙ e)
