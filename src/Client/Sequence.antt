-- ===== src/Client/Sequence.antt =====
-- The sequence numbers of the frames, in closed form.
use native.Mathlib.Nat.{div-add-mod', div-eq_of_lt-le, mod-lt, suc-mul, suc-mod}
use udping.Base.{
  ℕ, zero, suc, ◌+◌, ◌/◌, ◌%◌, ◌<◌, ◌≤◌, ◌≡◌, ◌≢◌, ◌⊎◌, inl, inr, refl, sym, ap, ◌∙◌, List, [], ◌∷◌,
  some, ltb, if◌then◌else◌, arith, length, get_elem?, set, length-set, u32, All, subst,
  mod-suc_step, mod-suc_wrap, dec_lt,
}
use udping.Client.{ClientSession, ClientList, Random, Tick, Sent, send_rounds}
use udping.Client.Sending.{IsReady, IsSound}
use udping.Client.Rounds.{IsServed, send_round-IsServed}
use udping.Client.Run.{IsClock}

get_elem?-set :
    (xs : List ClientSession) (c i : ℕ) (v s : ClientSession)
    → get_elem? (set xs c v) i ≡ some s
    → ((i ≡ c) × (s ≡ v)) ⊎ ((i ≢ c) × (get_elem? xs i ≡ some s))
get_elem?-set [] c i v s e = absurd (cc)
get_elem?-set (x ∷ xs) zero zero v s e = inl (refl, cc)
get_elem?-set (x ∷ xs) zero (suc i) v s e = inr (omega arith, e)
get_elem?-set (x ∷ xs) (suc c) zero v s e = inr (omega arith, e)
get_elem?-set (x ∷ xs) (suc c) (suc i) v s e = elim (get_elem?-set xs c i v s e) [
  | inl (p, q) ↦ inl (ap suc p, q)
  | inr (p, q) ↦ inr (omega (arith, p), q)
]

div-suc_step : (k n : ℕ) → k % n + 1 < n → suc k / n ≡ k / n
div-suc_step k n h =
    div-eq_of_lt-le n (omega (arith, div-add-mod' k n))
      (omega (arith, div-add-mod' k n, suc-mul (k / n) n))

div-suc_wrap : (k n : ℕ) → 0 < n → n ≤ k % n + 1 → suc k / n ≡ k / n + 1
div-suc_wrap k n pos h =
    div-eq_of_lt-le n (omega (arith, div-add-mod' k n, suc-mul (k / n) n, mod-lt k pos))
      (omega (arith, div-add-mod' k n, suc-mul (k / n) n, suc-mul (k / n + 1) n, mod-lt k pos))

get_elem?-lt :
    (xs : List ClientSession) (i : ℕ) (s : ClientSession) → get_elem? xs i ≡ some s → i < length xs
get_elem?-lt [] i s e = absurd (cc)
get_elem?-lt (x ∷ xs) zero s e = omega arith
get_elem?-lt (x ∷ xs) (suc i) s e = omega (arith, get_elem?-lt xs i s e)

-- The number of packets that session `i` of `n` has sent before round `k`.
abbrev pub level_at : ℕ → ℕ → ℕ → ℕ
level_at n k i = if ltb i (k % n) then k / n + 1 else k / n

-- Each session before the turn of round `k` is one packet ahead of those after it.
pub record IsLevel (k : ℕ) (l : ClientList) : Type 0 where
  pub turn : l.cur_session ≡ k % length l.sessions
  pub level :
      (i : ℕ) (s : ClientSession)
      → get_elem? l.sessions i ≡ some s
      → s.packet.seq_num ≡ u32 (level_at (length l.sessions) k i)

level_at-served : (n k i : ℕ) → 0 < n → i ≡ k % n → level_at n (suc k) i ≡ k / n + 1
level_at-served n k i pos here = elim (dec_lt (k % n + 1) n) [
  | yes before ↦ ground (arith, div-suc_step k n before, mod-suc_step k n before)
  | no last ↦
      let wrap : n ≤ k % n + 1 = omega arith in
      ground (arith, div-suc_wrap k n pos wrap, mod-suc_wrap k n pos wrap)
]

level_at-other : (n k i : ℕ) → 0 < n → i ≢ k % n → i < n → level_at n (suc k) i ≡ level_at n k i
level_at-other n k i pos other bound = elim (dec_lt (k % n + 1) n) [
  | yes before ↦ ground (arith, div-suc_step k n before, mod-suc_step k n before)
  | no last ↦
      let wrap : n ≤ k % n + 1 = omega arith in
      ground (arith, div-suc_wrap k n pos wrap, mod-suc_wrap k n pos wrap, mod-lt k pos)
]

pub served-IsLevel :
    (k : ℕ) (t : Tick) (l : ClientList) (r : Random)
    → IsReady l
    → IsLevel k l
    → (h : IsServed l t r)
    → (h.f.packet.seq_num ≡ u32 (k / length l.sessions)) × IsLevel (suc k) h.l'
served-IsLevel k t l r ready v h =
    let n = length l.sessions in
    let pos : 0 < n = omega (arith, ready.in_range) in
    let plus : k % n + 1 ≡ suc (k % n) = omega arith in
    let count : length h.l'.sessions ≡ n =
      ap length h.stored ∙ length-set l.sessions l.cur_session h.s' in
    let own : h.s.packet.seq_num ≡ u32 (k / n) =
      v.level l.cur_session h.s h.turn ∙ ap u32 (ground (arith, v.turn)) in
    (
      h.carries.seq ∙ own,
      record {
        turn =
            h.next_turn
            ∙ ap (λ c. (c + 1) % n) v.turn
            ∙ ap (λ x. x % n) plus
            ∙ sym (suc-mod k n)
            ∙ ap (λ m. suc k % m) (sym count);
        level = λ i s e.
            let placed : get_elem? (set l.sessions l.cur_session h.s') i ≡ some s =
              subst (λ xs. get_elem? xs i ≡ some s) h.stored e in
            subst (λ m. s.packet.seq_num ≡ u32 (level_at m (suc k) i)) (sym count)
              (elim (get_elem?-set l.sessions l.cur_session i h.s' s placed) [
                | inl (here, same) ↦
                    ap (λ x. x.packet.seq_num) same
                    ∙ h.next_seq
                    ∙ (omega (arith, own, level_at-served n k i pos (here ∙ v.turn)))
                | inr (other, was) ↦
                    v.level i s was
                    ∙ ap u32 (
                        sym (
                          level_at-other n k i pos (omega (arith, other, v.turn))
                            (get_elem?-lt l.sessions i s was)))
              ]);
      },
    )

-- The numbers in frames.
abbrev pub sequence : List Sent → List ℕ
sequence [] = []
sequence (f ∷ fs) = f.packet.seq_num ∷ sequence fs

-- The numbers that `n` sessions send in turn in rounds `k`, `k + 1` and so on.
abbrev pub numbered : ℕ → ℕ → List Tick → List ℕ
numbered n k [] = []
numbered n k (t ∷ ts) = u32 (k / n) ∷ numbered n (suc k) ts

-- The frames of any run of rounds of `n` sessions: the frame of round `k` has the sequence number
-- k / n, in 32 bits, if the run begins at a level state of its first round. Each is sound.
pub send_rounds-numbered :
    (k : ℕ) (ts : List Tick) (l : ClientList) (r : Random)
    → All IsClock ts
    → IsReady l
    → IsLevel k l
    → (fs : List Sent) × (l' : ClientList) × (r' : Random) × (send_rounds ts l r
        ≡ some (fs, (l', r')))
      × (sequence fs ≡ numbered (length l.sessions) k ts)
      × All IsSound fs
unfolding send_rounds
send_rounds-numbered k [] l r clocks ready v = ([], l, r, refl, refl, tt)
send_rounds-numbered k (t ∷ ts) l r clocks ready v =
    let h = send_round-IsServed t l r ready clocks.0 in
    let (number, next) = served-IsLevel k t l r ready v h in
    let count : length h.l'.sessions ≡ length l.sessions =
      ap length h.stored ∙ length-set l.sessions l.cur_session h.s' in
    let (fs, l', r', run, numbers, sound) =
      send_rounds-numbered (suc k) ts h.l' h.r' clocks.1 h.ready next in
    let rest : sequence fs ≡ numbered (length l.sessions) (suc k) ts =
      numbers ∙ ap (λ n. numbered n (suc k) ts) count in
    (h.f ∷ fs, l', r', rw (send_rounds, h.run, run) refl, λ i. number i ∷ rest i, (h.sound, sound))
