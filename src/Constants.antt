-- ===== src/Constants.antt =====
-- include/constants.h, and the size of the packet header on the target (x86-64, LP64).
use udping.Base.{ℕ}

abbrev pub min_port : ℕ
min_port = 1024

abbrev pub max_port : ℕ
max_port = 60000

abbrev pub max_sockets : ℕ
max_sockets = 5000

abbrev pub max_guid : ℕ
max_guid = 20

abbrev pub max_buf : ℕ
max_buf = 2000

abbrev pub proto_version : ℕ
proto_version = 1

-- sizeof(packet): the 64-bit `sent_nsec` gives the struct the alignment 8.
abbrev pub packet_size : ℕ
packet_size = 56
