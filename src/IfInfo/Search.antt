-- ===== src/IfInfo/Search.antt =====
-- Which interface is taken.
use udping.Base.{
  ℕ, ◌≤◌, ◌<◌, ◌≡◌, ◌≢◌, inl, inr, refl, List, [], ◌∷◌, ◌++◌, Option, none, some, Bool, true, false,
  ◌==◌, if◌then◌else◌, arith, All, Option-cases, Bool-cases, length, length-take_of_le, take,
}
use udping.Program.{returns, crashes, ◌>>=◌}
use udping.Program.Ensures.{Ensures, Ensures-bind, Ensures-returns}
use udping.IfInfo.{
  IfAddr, Net, s_addr, find_interface, interface_info, with_index, get_if_info, walk,
}

-- An entry that has an address, of another interface.
abbrev pub IsOther : ℕ → IfAddr → Type 0
IsOther a x = (sin : List ℕ) × (x.ifa_addr ≡ some sin) × (s_addr sin ≢ a)

-- The first entry with the address, behind entries that have others.
pub find_interface-found :
    (a : ℕ) (before after : List IfAddr) (x : IfAddr) (sin : List ℕ)
    → All (IsOther a) before
    → x.ifa_addr ≡ some sin
    → s_addr sin ≡ a
    → find_interface a (before ++ (x ∷ after)) ≡ returns (some x.ifa_name)
unfolding find_interface
find_interface-found a [] after x sin h here e =
    let same : (s_addr sin == a) ≡ true = ground arith in rw (here, same) refl
find_interface-found a (y ∷ before) after x sin h here e =
    let (other, there, apart) = h.0 in
    let differs : (s_addr other == a) ≡ false = ground arith in
    rw (there, differs) (find_interface-found a before after x sin h.1 here e)

-- An entry without an address, such as that of a tunnel, in front of the interface that is looked
-- for is read through its null pointer.
pub find_interface-null :
    (a : ℕ) (before after : List IfAddr) (x : IfAddr)
    → All (IsOther a) before
    → x.ifa_addr ≡ none
    → find_interface a (before ++ (x ∷ after)) ≡ crashes
unfolding find_interface
find_interface-null a [] after x h here = rw here refl
find_interface-null a (y ∷ before) after x h here =
    let (other, there, apart) = h.0 in
    let differs : (s_addr other == a) ≡ false = ground arith in
    rw (there, differs) (find_interface-null a before after x h.1 here)

-- For an address that parses, the interface asked is the one of the first entry with that address,
-- if every entry before it has an address and another one.
pub get_if_info-first :
    (net : Net) (ip : List ℕ) (a : ℕ) (before after : List IfAddr) (x : IfAddr) (sin : List ℕ)
    → net.inet_pton ip ≡ some a
    → net.if_addrs ≡ some (before ++ (x ∷ after))
    → All (IsOther a) before
    → x.ifa_addr ≡ some sin
    → s_addr sin ≡ a
    → get_if_info net ip ≡ returns (interface_info net x.ifa_name)
unfolding get_if_info walk ◌>>=◌
get_if_info-first net ip a before after x sin parsed listed h here e =
    rw (get_if_info, parsed, listed, find_interface-found a before after x sin h here e) refl

-- If an entry without an address, such as that of a tunnel, stands behind entries of other
-- addresses, its null pointer is read, also where the interface that is looked for follows.
pub get_if_info-null :
    (net : Net) (ip : List ℕ) (a : ℕ) (before after : List IfAddr) (x : IfAddr)
    → net.inet_pton ip ≡ some a
    → net.if_addrs ≡ some (before ++ (x ∷ after))
    → All (IsOther a) before
    → x.ifa_addr ≡ none
    → get_if_info net ip ≡ crashes
unfolding get_if_info walk ◌>>=◌
get_if_info-null net ip a before after x parsed listed h here =
    rw (get_if_info, parsed, listed, find_interface-null a before after x h here) refl

-- An index that is not 0, and the six bytes of a MAC address.
abbrev pub IsInfo : Option (ℕ × List ℕ) → Type 0
IsInfo none = Unit
IsInfo (some (index, mac)) = (0 < index) × (length mac ≡ 6)

with_index-IsInfo :
    (index : ℕ) (sa_data : List ℕ) → 6 ≤ length sa_data → IsInfo (with_index index sa_data)
unfolding with_index
with_index-IsInfo index sa_data long = elim (Bool-cases (index == 0)) [
  | inl nought ↦ rw nought tt
  | inr found ↦ rw found (ground arith, length-take_of_le 6 sa_data long)
]

-- A result has a valid index and the six bytes of a MAC address, if the kernel's answers have
-- that many.
pub interface_info-IsInfo :
    (net : Net) (interface : List ℕ)
    → ((name sa_data : List ℕ) → net.hw_addr name ≡ some sa_data → 6 ≤ length sa_data)
    → IsInfo (interface_info net interface)
unfolding interface_info
interface_info-IsInfo net interface long = elim (Option-cases (net.hw_addr (take 15 interface))) [
  | inl none_there ↦ by_socket net.packet_socket _ (rw none_there tt)
  | inr (sa_data, there) ↦
      by_socket net.packet_socket _
        (rw there (with_index-IsInfo (net.if_nametoindex interface) sa_data (long _ sa_data there)))
]
  where
    by_socket : (b : Bool) (o : Option (ℕ × List ℕ)) → IsInfo o → IsInfo (if b then o else none)
    by_socket true o h = h
    by_socket false o h = tt

-- Where the result is not -1, the index is not 0 and the MAC address has six bytes.
pub get_if_info-IsInfo :
    (net : Net) (ip : List ℕ)
    → ((name sa_data : List ℕ) → net.hw_addr name ≡ some sa_data → 6 ≤ length sa_data)
    → Ensures IsInfo (get_if_info net ip)
unfolding get_if_info
get_if_info-IsInfo net ip long = elim (Option-cases (net.inet_pton ip)) [
  | inl bad ↦ rw (get_if_info, bad) (Ensures-returns none tt)
  | inr (a, good) ↦
      rw (get_if_info, good) (Ensures-bind _ _ (λ found _. Ensures-returns _ (by_name found)))
]
  where
    by_name :
        (o : Option (List ℕ))
        → IsInfo (elim o [ none ↦ none | some interface ↦ interface_info net interface ])
    by_name none = tt
    by_name (some interface) = interface_info-IsInfo net interface long
