-- ===== src/Mac/Rotation.antt =====
-- The order in which the addresses are handed out.
use udping.Base.{
  All, All-get_elem?, subst, get_elem?_of_lt, ℕ, zero, suc, ◌+◌, ◌%◌, ◌<◌, ◌≡◌, refl, ◌∙◌, List,
  some, arith, length, get_elem?, ◌==◌, leb, if◌then◌else◌, ap, sym, false, mod-suc_step,
  mod-suc_wrap,
}
use udping.Mac.{MacList, next_mac}

-- An address of six bytes for each number below `num_macs`, which is not 0.
pub record IsFilled (l : MacList) : Type 0 where
  pub nonempty : 0 < l.num_macs
  pub complete : length l.macs ≡ l.num_macs
  pub six_bytes : All (λ m. length m ≡ 6) l.macs

-- The list after some calls.
unfoldable pub after_calls : ℕ → MacList → MacList
unfolding next_mac
after_calls zero l = l
after_calls (suc k) l = (next_mac (after_calls k l)).1

mod-suc : (j n : ℕ) → 0 < n → suc j % n ≡ (if leb n (j % n + 1) then 0 else j % n + 1)
mod-suc j n h = ground (arith, mod-suc_step j n, mod-suc_wrap j n)

-- The index that a call moves to.
abbrev moved : MacList → ℕ
moved l = if leb l.num_macs (l.cur_mac + 1) then 0 else l.cur_mac + 1

next_mac-filled :
    (l : MacList)
    → IsFilled l
    → next_mac l ≡ (get_elem? l.macs (moved l), record l { cur_mac = moved l })
unfolding next_mac
next_mac-filled l f = let some_mac : (l.num_macs == 0) ≡ false = ground arith in rw some_mac refl

-- A filled list has an address to hand out, and stays filled.
pub next_mac-some :
    (l : MacList)
    → IsFilled l
    → (mac : List ℕ) × ((next_mac l).0 ≡ some mac) × (length mac ≡ 6) × IsFilled (next_mac l).1
next_mac-some l f =
    let bound : moved l < length l.macs = ground (arith, f.complete, f.nonempty) in
    let found = get_elem?_of_lt l.macs (moved l) bound in
    let kept : IsFilled (record l { cur_mac = moved l }) = record {
      nonempty = f.nonempty;
      complete = f.complete;
      six_bytes = f.six_bytes;
    } in
    let run = next_mac-filled l f in
    (
      found.0,
      ap (λ r. r.0) run ∙ found.1,
      All-get_elem? (λ m. length m ≡ 6) l.macs (moved l) found.0 f.six_bytes found.1,
      subst (λ r. IsFilled r.1) (sym run) kept,
    )

-- After k + 1 calls the index is k modulo the count, and nothing else has changed.
after_calls-suc :
    (k : ℕ) (l : MacList)
    → IsFilled l
    → l.cur_mac ≡ l.num_macs
    → after_calls (suc k) l ≡ record l { cur_mac = k % l.num_macs }
unfolding after_calls
after_calls-suc zero l f start =
    let first : moved l ≡ 0 % l.num_macs = ground arith in
    ap (λ r. r.1) (next_mac-filled l f) ∙ ap (λ c. record l { cur_mac = c }) first
after_calls-suc (suc k) l f start =
    let at = record l { cur_mac = k % l.num_macs } in
    let filled : IsFilled at = record {
      nonempty = f.nonempty;
      complete = f.complete;
      six_bytes = f.six_bytes;
    } in
    ap (λ m. (next_mac m).1) (after_calls-suc k l f start)
    ∙ ap (λ r. r.1) (next_mac-filled at filled)
    ∙ ap (λ c. record l { cur_mac = c }) (sym (mod-suc k l.num_macs f.nonempty))

-- A list as the constructor leaves it, with an address for each number below its count, hands out
-- its addresses in order, from the first, and starts again after the last: call number k + 1 gives
-- the address with number k modulo their count.
pub next_mac-rotation :
    (k : ℕ) (l : MacList)
    → IsFilled l
    → l.cur_mac ≡ l.num_macs
    → (next_mac (after_calls k l)).0 ≡ get_elem? l.macs (k % l.num_macs)
unfolding after_calls
next_mac-rotation zero l f start =
    let first : moved l ≡ 0 % l.num_macs = ground arith in
    ap (λ r. r.0) (next_mac-filled l f) ∙ ap (get_elem? l.macs) first
next_mac-rotation (suc k) l f start =
    let at = record l { cur_mac = k % l.num_macs } in
    let filled : IsFilled at = record {
      nonempty = f.nonempty;
      complete = f.complete;
      six_bytes = f.six_bytes;
    } in
    ap (λ m. (next_mac m).0) (after_calls-suc k l f start)
    ∙ ap (λ r. r.0) (next_mac-filled at filled)
    ∙ ap (get_elem? l.macs) (sym (mod-suc k l.num_macs f.nonempty))
