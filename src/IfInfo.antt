-- ===== src/IfInfo.antt =====
-- `getIfInfo` of src/ifinfo.cc: the interface that has an address. The kernel's answers are
-- parameters.
pub mod Search
use udping.Base.{
  ℕ, List, [], ◌∷◌, Option, none, some, Bool, true, false, ◌==◌, if◌then◌else◌, take, drop, le_load,
}
use udping.Program.{Run, returns, exits, crashes, ◌>>=◌, ◌>>◌}

-- An entry of `getifaddrs`: the name, and the bytes of its `struct sockaddr`, if the pointer is
-- not null.
pub record IfAddr : Type 0 where
  pub ifa_name : List ℕ
  pub ifa_addr : Option (List ℕ)

-- What the system answers. `if_addrs` is none where `getifaddrs` fails, and the index of a name
-- is 0 where there is none.
pub record Net : Type 0 where
  pub inet_pton : List ℕ → Option ℕ
  pub if_addrs : Option (List IfAddr)
  pub packet_socket : Bool
  pub hw_addr : List ℕ → Option (List ℕ)
  pub if_nametoindex : List ℕ → ℕ

-- `sin_addr.s_addr`, whatever the family of the address is.
abbrev pub s_addr : List ℕ → ℕ
s_addr sin = le_load (take 4 (drop 4 sin))

-- The loop over the entries: the name of the first with the address.
unfoldable pub find_interface : ℕ → List IfAddr → Run (Option (List ℕ))
find_interface src_addr [] = returns none
find_interface src_addr (cur ∷ rest) =
    let next = find_interface src_addr rest in
    elim cur.ifa_addr [
      | none ↦ crashes
      | some sin ↦ if s_addr sin == src_addr then returns (some cur.ifa_name) else next
    ]

-- The pointer that a failed `getifaddrs` leaves is not set.
unfoldable pub walk : Net → ℕ → Run (Option (List ℕ))
unfolding find_interface
walk net src_addr = elim net.if_addrs [
  | none ↦ crashes
  | some addrs ↦ find_interface src_addr addrs
]

-- The MAC address and the index of an interface; snprintf cuts the name to 15 characters for the
-- ioctl.
unfoldable pub with_index : ℕ → List ℕ → Option (ℕ × List ℕ)
with_index index sa_data = if index == 0 then none else some (index, take 6 sa_data)

unfoldable pub interface_info : Net → List ℕ → Option (ℕ × List ℕ)
unfolding with_index
interface_info net interface =
    let info : Option (ℕ × List ℕ) = elim (net.hw_addr (take 15 interface)) [
      | none ↦ none
      | some sa_data ↦ with_index (net.if_nametoindex interface) sa_data
    ] in
    if net.packet_socket then info else none

-- The interface's index and MAC address; `none` is the result -1.
unfoldable pub get_if_info : Net → List ℕ → Run (Option (ℕ × List ℕ))
unfolding interface_info walk
get_if_info net ip = elim (net.inet_pton ip) [
  | none ↦ returns none
  | some src_addr ↦ do
    found ← walk net src_addr
    returns (elim found [ none ↦ none | some interface ↦ interface_info net interface ])
]
