-- ===== src/Host.antt =====
-- The calls of the system that the start of both programs makes, with the answers as parameters:
-- `getSockAddr` and `makeSocket` of src/protocol.cc, `setIntervalTimer` of src/delay.cc, and the
-- change of the user in the two `main` functions.
use udping.Base.{ℕ, List, Option, none, some, Bool, true, false, ◌==◌, if◌then◌else◌}
use udping.Program.{Run, returns, exits, ◌>>=◌, ◌>>◌, require}
use udping.IfInfo.{Net}

-- The user and group of "nobody".
pub record Passwd : Type 0 where
  pub pw_uid : ℕ
  pub pw_gid : ℕ

-- Calls that may fail give whether they succeed. `resolve` is the first address of IPv4 that
-- getaddrinfo finds for a name, `resolve_any` the first of any family for a name and a port, and `host_by_addr` the name that gethostbyaddr finds for a dotted address.
pub record Host : Type 0 where
  pub uid : ℕ
  pub nobody : Option Passwd
  pub setgid : ℕ → Bool
  pub setuid : ℕ → Bool
  pub resolve : List ℕ → Option ℕ
  pub resolve_any : List ℕ → ℕ → Option ℕ
  pub host_by_addr : List ℕ → Option (List ℕ)
  pub udp_socket : Bool
  pub bind : ℕ → ℕ → Bool
  pub packet_socket : Bool
  pub setitimer : ℕ → Bool
  pub net : Net

-- `err (1, ...)`.
abbrev pub or_err {ℓ} : {A : Type ℓ} → Option A → Run A
or_err none = exits 1
or_err (some a) = returns a

abbrev pub check_err : Bool → Run (Unit {0})
check_err true = returns tt
check_err false = exits 1

-- The address of a host; the port argument is not used.
unfoldable pub get_sock_addr : Host → List ℕ → ℕ → Run ℕ
get_sock_addr h name port = or_err (h.resolve name)

unfoldable pub make_socket : Host → List ℕ → ℕ → Run (Unit {0})
make_socket h name port = do
  check_err h.udp_socket
  address ← or_err (h.resolve_any name port)
  check_err (h.bind address port)

-- `setIntervalTimer` of src/delay.cc, which the server calls with its keepalive time.
unfoldable pub set_interval_timer : Host → ℕ → Run (Unit {0})
set_interval_timer h keepalive = check_err (h.setitimer keepalive)

-- The user that a process runs as after its call of `setuid`: a call that fails changes nothing.
unfoldable pub user_after : Host → ℕ → ℕ
user_after h uid = if h.setuid uid then uid else h.uid

-- `setgid`, `setuid`, each with an exit where it fails.
unfoldable pub switch_user : Host → Passwd → Run ℕ
unfolding user_after
switch_user h p = do
  require (h.setgid p.pw_gid)
  require (h.setuid p.pw_uid)
  returns (user_after h p.pw_uid)

-- The entry of "nobody", with an exit where there is none or it is root's.
unfoldable pub nobody_entry : Host → Run Passwd
nobody_entry h = elim h.nobody [
  | none ↦ exits 255
  | some p ↦ if p.pw_uid == 0 then exits 255 else returns p
]

-- The client's change from root to nobody: the user that it runs as afterwards.
unfoldable pub become_nobody : Host → Run ℕ
unfolding switch_user nobody_entry
become_nobody h =
    let away = nobody_entry h >>= switch_user h in if h.uid == 0 then away else returns h.uid

-- The server's, which goes on where a call fails.
unfoldable pub try_nobody : Host → Run ℕ
unfolding nobody_entry user_after
try_nobody h =
    let away = (do p ← nobody_entry h; returns (user_after h p.pw_uid)) in
    if h.uid == 0 then away else returns h.uid
