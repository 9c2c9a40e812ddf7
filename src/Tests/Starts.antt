-- ===== src/Tests/Starts.antt =====
-- Source port descriptors, and the client from its start.
use udping.Base.{ℕ, ◌+◌, ◌*◌, ◌<◌, ◌≡◌, refl, List, [], ◌∷◌, arith, replicate}
use udping.Text.{codes}
use udping.Client.{ClientList, Random}
use udping.Client.Sending.{IsReady}
use udping.Mac.{new_mac_list}
use udping.Mac.Text.{text_of, new_mac_list-text_of}
use udping.Ports.{accepted, refused, source_ports, new_client_list}
use udping.Ports.Bounds.{IsPortList, source_ports-IsPortList, source_ports_commas}
use udping.Ports.Start.{session_ports, new_client_list-IsReady}

abbrev two_ranges : List ℕ
two_ranges = codes "5000-5001,,5005"

abbrev three_ports : List ℕ
three_ports = 5000 ∷ 5001 ∷ 5005 ∷ []

read : source_ports two_ranges ≡ accepted three_ports
unfolding source_ports
read = refl

crossed : source_ports (codes "5001-5000") ≡ refused
unfolding source_ports
crossed = refl

source_ports-IsPortList_example : IsPortList three_ports
source_ports-IsPortList_example = source_ports-IsPortList two_ranges three_ports read

source_ports_commas_example : source_ports (replicate 3 44) ≡ accepted []
source_ports_commas_example = source_ports_commas 3 (omega arith)

abbrev random : Random
random = record { draw = λ n. 1103515245 * n + 12345; drawn = 0 }

abbrev mac : List ℕ
mac = 2 ∷ 3 ∷ 4 ∷ 5 ∷ 6 ∷ 7 ∷ []

mac-valid : 0 < (new_mac_list (text_of (mac ∷ []))).num_macs
mac-valid = rw (new_mac_list-text_of mac [] (omega arith)) (omega arith)

abbrev started : ClientList
started =
    (new_client_list 1000 60 0x0100000a 0x0200000a mac 6000 three_ports
      (new_mac_list (text_of (mac ∷ []))) (λ p. 1700000000) random).0

new_client_list-IsReady_example : IsReady started × (session_ports started.sessions ≡ three_ports)
new_client_list-IsReady_example =
    new_client_list-IsReady 1000 60 0x0100000a 0x0200000a mac 6000 three_ports (text_of (mac ∷ []))
      (λ p. 1700000000) random (omega arith) (omega arith) (omega arith) mac-valid
      (record { six_bytes = refl; src_fits = omega arith; dst_fits = omega arith })
