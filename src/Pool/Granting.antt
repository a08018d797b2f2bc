-- ===== src/Pool/Granting.antt =====
-- src/addrpool.h: the pool's answer to its oldest request opens the flow of that packet.
use natporte.Base.{
  ℕ, ◌≤◌, ◌≡◌, ◌≢◌, inl, inr, refl, sym, subst, ap, ◌∙◌, Bool, true, some, none, Option, List, ◌∷◌,
  Bytes, IsBytes, load16, load16-lt, load32-lt, htons, htonl, htons-htons, htonl-htonl, arith,
}
use natporte.Filter.{Config}
use natporte.Node.{mk_node, with_ends}
use natporte.Packet.{ip_hl, ip_p, ip_src, l4, sport_at, dport_at}
use natporte.Ring.{Slot, Handler, Status, Out, ring_pop_condblock}
use natporte.Ring.Inv.{contents, IsValid}
use natporte.Ring.Pop.{Popped, handed, ring_pop_condblock-Popped}
use natporte.System.{
  System, Payload, packet, Outcome, done, Kernel, Ends, Notice, request, Datagram, other_error,
}
use natporte.System.Inv.{IsSystem}
use natporte.System.Frame.{queues, Frames, Queues}
use natporte.System.Told.{Pairs}
use natporte.Pool.{request_ack, zero_node, ends_of}
use natporte.Pool.Keeps.{after_pop}
use natporte.Pool.Receiver.{receive, take_block, on_request_ack, granted}
use natporte.Pool.Answers.{FitsEnds, IsFresh}
use natporte.Pool.Granted.{Opens, IsFree}
use natporte.Pool.Frame.{request_ack-Frames}
use natporte.Pool.Opened.{Opened, request_ack-Opened}

abbrev pub waiting : Bytes → ℕ → Slot Payload
waiting b size = record { buffer = some (packet b); size = size; opaque = 0 }

module _ (c : Config) (b : Bytes) (size : ℕ) (opens : Opens c b size) (bytes : IsBytes b) where
  abbrev asked : Ends
  asked = ends_of (mk_node b size zero_node).1

  -- The request has the packet's protocol and source.
  asked_source :
      (asked.protocol ≡ ip_p b 0)
      × (htonl asked.lan_ip ≡ ip_src b 0)
      × (htons asked.lan_port ≡ load16 b (sport_at (l4 b 0)))
  unfolding mk_node
  asked_source =
      rw made
        (refl, htonl-htonl (ip_src b 0) (load32-lt b 12 bytes), htons-htons _ (load16-lt b _ bytes))
    where
      made : mk_node b size zero_node ≡ (
        true,
        with_ends b zero_node (load16 b (sport_at (l4 b 0))) (load16 b (dport_at (l4 b 0))),
      )
      made =
          unfold mk_node in
          elim opens.kind [
            | inl udp ↦ ground (arith, opens.long, udp)
            | inr tcp ↦ ground (arith, opens.long, tcp.0)
          ]

-- A block that the ring gives first is what the handler gets.
took_first :
    (b : Bytes) (size : ℕ) (rest : List (Slot Payload)) (s : System)
    (next : Payload → ℕ → ℕ → System → Outcome System)
    → IsSystem s
    → contents s.h_recv ≡ waiting b size ∷ rest
    → (g : Handler Payload) × (take_block s next ≡ next (packet b) size 0 (record s { h_recv = g }))
      × IsValid g
      × (contents g ≡ rest)
unfolding take_block
took_first b size rest s next v first =
    go (ring_pop_condblock s.h_recv true) (ring_pop_condblock-Popped s.h_recv true v.recv)
  where
    go :
        (popped : Option (Status × Out Payload × Handler Payload))
        → Popped s.h_recv true popped
        → (g : Handler Payload) × (after_pop popped (λ g. record s { h_recv = g }) next
            ≡ next (packet b) size 0 (record s { h_recv = g }))
          × IsValid g
          × (contents g ≡ rest)
    go none p = cc
    go (some (status, out, g)) (r, same, head, kept) =
        let at_front : waiting b size ≡ r = cc in
        let others : contents g ≡ rest = cc in
        (
          g,
          subst
              (λ (o : Out Payload).
                after_pop (some (status, o, g)) (λ g. record s { h_recv = g }) next
                ≡ next (packet b) size 0 (record s { h_recv = g }))
              (ap (handed true) at_front ∙ sym same) refl,
          kept.0,
          others,
        )

module _ (k : Kernel) (c : Config) (now : ℕ) (opt_reset : Bool) (p : ℕ) (e : Ends) (b : Bytes)
    (size : ℕ) (network : k.sendto ≢ other_error) (timers : k.kevent ≡ true)
    (opens : Opens c b size) (bytes : IsBytes b) (header : 5 ≤ ip_hl b 0) (fits : FitsEnds e) where
  -- When the pool grants its oldest request, with the protocol and the LAN end that the request
  -- names, then the block that comes first from `h_recv` is the packet of that request, and the
  -- receiver opens its flow: the step comes to its end in a good state, the new entry is in the
  -- table, it is found by the granted address and port, the packet is sent with these as its
  -- source, and the other blocks still wait. This holds in a good state, for a packet from the
  -- LAN that passes the tests before the lookup, a datagram or a SYN that is not for the
  -- translator itself, with an IP header of at least 20 bytes, when no entry has the granted
  -- keys, `malloc` gives memory of no entry, and the operating system takes the packet and the
  -- timer.
  pub receive-Opened :
      (s : System) (at : ℕ) (asks : Ends) (ms : List Notice) (rest : List (Slot Payload))
      → IsSystem s
      → contents s.h_recv ≡ waiting b size ∷ rest
      → Pairs (request at asks ∷ ms) (contents s.h_recv)
      → e.protocol ≡ asks.protocol
      → e.lan_ip ≡ asks.lan_ip
      → e.lan_port ≡ asks.lan_port
      → IsFresh s.globals.table p
      → IsFree s.globals.table (granted now e)
      → (t : System) × (d : Datagram) × (receive k c now opt_reset p (request_ack e) s ≡ done t)
        × Opened s t p e b d
        × (contents t.h_recv ≡ rest)
  unfolding receive
  receive-Opened s at asks ms rest v first pairs protocol lan_ip lan_port fresh free =
      let (g, taken, valid, left) = took_first b size rest s (on_request_ack k c now p e) v first in
      let u = record s { h_recv = g } in
      let w : IsSystem u = record {
        table = v.table;
        send = v.send;
        recv = valid;
        sound = v.sound;
      } in
      let source = asked_source c b size opens bytes in
      let (b', buffer, unflagged, ends) = (subst (Pairs (request at asks ∷ ms)) first pairs).0 in
      let packets : b ≡ b' = cc in
      let same : asks ≡ asked c b size opens bytes =
        ends ∙ ap (λ (x : Bytes). ends_of (mk_node x size zero_node).1) (sym packets) in
      let (t, d, sent, o) =
        request_ack-Opened k c now e b size network timers opens
          (protocol ∙ ap (λ (x : Ends). x.protocol) same ∙ source.0) p u w bytes header fits
          (ap htonl lan_ip ∙ ap (λ (x : Ends). htonl x.lan_ip) same ∙ source.1)
          (ap htons lan_port ∙ ap (λ (x : Ends). htons x.lan_port) same ∙ source.2) fresh 0 free in
      (
        t,
        d,
        taken ∙ sent,
        record {
          good = o.good;
          entered = o.entered;
          back = o.back;
          sent = o.sent;
          source = o.source;
          port = o.port;
        },
        ap (λ (q : Queues). contents q.h_recv)
              (subst (Frames (queues u)) sent
                (request_ack-Frames k c now (queues u) p e (packet b) size 0 u refl))
            ∙ left,
      )
