-- ===== src/Client/Arrivals.antt =====
-- A stream of the client's frames at the server's loop.
use mathlib.Core.List.{append_assoc}
use udping.Base.{
  ℕ, ◌-◌, ◌≡◌, sym, ap, ◌∙◌, subst, List, [], ◌∷◌, ◌++◌, some, true, All, drop, replicate, map,
}
use udping.Packet.{encode, decode, guid_string}
use udping.Packet.RoundTrip.{decode-encode, guid_string-encode}
use udping.Manager.{Manager}
use udping.Manager.Socket.{Datagram, Clock, is_accepted}
use udping.Manager.Socket.EndToEnd.{carrying-is_accepted}
use udping.Manager.Events.{Event, ping, alarm}
use udping.Manager.Serving.{Input, datagram, signal}
use udping.Manager.Serving.Faults.{HasGuid}
use udping.Client.{Sent}
use udping.Client.Sending.{IsSound}
use udping.Client.Delivery.{sent_payload}

-- What the network delivers: a frame that a client sent, with what the receive buffer has behind
-- it, or a signal.
pub data Delivery : Type 0 where
  arrives : (f : Sent) → IsSound f → Clock → (rest : List ℕ) → (address port : ℕ) → Delivery
  interrupts : ℕ → Delivery

abbrev sent_datagram : Sent → List ℕ → ℕ → ℕ → Datagram
sent_datagram f rest address port = record {
  count = some f.packet.size;
  buf = drop 42 f.bytes ++ rest;
  address = address;
  port = port;
}

-- The kernel hands over the payload of the frame.
abbrev pub input_of : Delivery → Input
input_of (arrives f sound t rest address port) = datagram t (sent_datagram f rest address port)
input_of (interrupts now) = signal now

-- An event but for the names of hosts.
abbrev pub nameless : Event → Event
nameless (ping r) = ping (record r { peer = []; hosts = [] })
nameless (alarm now) = alarm now

-- What the client sent.
abbrev pub event_of : Delivery → Event
event_of (arrives f sound t rest address port) = ping (record {
  ph = f.packet;
  sec = t.sec;
  nsec = t.nsec;
  peer = [];
  port = port;
  guid = sound.sendable.text;
  arrival = t.arrival;
  now = t.now;
  hosts = [];
})
event_of (interrupts now) = alarm now

-- The datagram of a sound frame: it is accepted, and it is the packet, with its guid.
pub record IsIntact (f : Sent) (sound : IsSound f) (d : Datagram) : Type 0 where
  pub accepted : is_accepted d ≡ true
  pub packet : decode d.buf ≡ f.packet
  pub guid : guid_string d.buf ≡ some sound.sendable.text

sent-IsIntact :
    (f : Sent) (sound : IsSound f) (rest : List ℕ) (address port : ℕ)
    → IsIntact f sound (sent_datagram f rest address port)
sent-IsIntact f sound rest address port =
    let p = f.packet in
    let v = sound.sendable in
    let behind = replicate (p.size - 56) 0 ++ rest in
    let buf : drop 42 f.bytes ++ rest ≡ encode p ++ behind =
      ap (λ b. b ++ rest) (sent_payload f sound)
      ∙ append_assoc (encode p) (replicate (p.size - 56) 0) rest in
    let read : List ℕ → Datagram =
      λ b. record { count = some p.size; buf = b; address = address; port = port } in
    subst (λ b. IsIntact f sound (read b)) (sym buf)
      (record {
        accepted = carrying-is_accepted p behind address port v.fits sound.long v.version;
        packet = decode-encode p behind v.fits;
        guid = guid_string-encode p v.text behind v.ends v.no_zero;
      })

pub deliveries-HasGuid : (ds : List Delivery) → All HasGuid (map input_of ds)
deliveries-HasGuid [] = tt
deliveries-HasGuid (interrupts now ∷ ds) = (tt, deliveries-HasGuid ds)
deliveries-HasGuid (arrives f sound t rest address port ∷ ds) =
    let intact = sent-IsIntact f sound rest address port in
    (λ good e. absurd (cc), deliveries-HasGuid ds)
