-- ===== src/Sniffer/Capture.antt =====
-- Which packets the sniffer answers.
use honeypots.Prelude.{
  ◌+◌, ◌≡◌, ◌∙◌, refl, ap, Option, none, some, List, [], ◌∷◌, ◌++◌, ◌==◌, arith, Option-cases, inl,
  inr, if◌then◌else◌, Bool, ◌&&◌, ltb,
}
use honeypots.Sniffer.{
  Sniffer, Packet, Layer, Ip, Ports, Icmp, Event, logged, error, answered, Payloads, log,
  read_layer, layer_of, read_layers, get_payloads, no_payloads, log_payloads, log_tcp_udp, log_icmp,
  answer_scan, handle_tcp_scan, capture_logic, is_foreign,
}

-- the packets that are sent among the events
abbrev pub answers : List Event → List Event
answers [] = []
answers (answered a b c d e ∷ o) = answered a b c d e ∷ answers o
answers (logged e ∷ o) = answers o
answers (error n ∷ o) = answers o

-- the answer that a packet gets, if it gets one
abbrev pub scan_answer : Bool → Option Ip → Option Ports → List Event
scan_answer can_send (some i) (some t) =
    if t.flags == 2 && (can_send && ltb t.seq 0xffffffff)
    then answered i.dst i.src t.dport t.sport (t.seq + 1) ∷ []
    else []
scan_answer can_send _ _ = []

answers-append : (a b : List Event) → answers (a ++ b) ≡ answers a ++ answers b
answers-append [] b = refl
answers-append (answered x y z v w ∷ a) b = ap (◌∷◌ (answered x y z v w)) (answers-append a b)
answers-append (logged e ∷ a) b = answers-append a b
answers-append (error n ∷ a) b = answers-append a b

module _ (q : Sniffer) where
  read_layer_silent : (l : Layer) (p : Payloads) → answers ((read_layer q l p).1) ≡ []
  unfolding read_layer log
  read_layer_silent l p = ground arith

  read_layers_silent :
      (all ls : List Layer) (p : Payloads) → answers ((read_layers q all ls p).1) ≡ []
  unfolding read_layers
  read_layers_silent all [] p = refl
  read_layers_silent all (l ∷ ls) p =
      let first = layer_of all l in
      answers-append ((read_layer q first p).1)
        ((read_layers q all ls ((read_layer q first p).0)).1)
      ∙ rw (read_layer_silent first p) (read_layers_silent all ls ((read_layer q first p).0))

  log_tcp_udp_silent : (k : Packet) (i : Ip) (p : Payloads) → answers (log_tcp_udp q k i p) ≡ []
  unfolding log_tcp_udp log
  log_tcp_udp_silent k i p = elim (Option-cases k.tcp) [
    | inl t ↦ elim (Option-cases k.udp) [ inl u ↦ rw (t, u) refl | inr (y, u) ↦ rw (t, u) refl ]
    | inr (x, t) ↦ elim (Option-cases k.udp) [
      | inl u ↦ rw (t, u) refl
      | inr (y, u) ↦ rw (t, u) refl
    ]
  ]

  log_payloads_silent : (k : Packet) (p : Payloads) → answers (log_payloads q k p) ≡ []
  unfolding log_payloads log
  log_payloads_silent k p = ground (arith, log_tcp_udp_silent k)

  log_icmp_silent : (i : Option Ip) (m : Option Icmp) → answers (log_icmp q i m) ≡ []
  unfolding log_icmp log
  log_icmp_silent i m = ground arith

  answers-answer_scan :
      (i : Option Ip) (t : Option Ports) (p : Payloads)
      → answers (answer_scan q i t p) ≡ scan_answer q.can_send i t
  unfolding answer_scan handle_tcp_scan log is_foreign
  answers-answer_scan none t p = refl
  answers-answer_scan (some i) none p = refl
  answers-answer_scan (some i) (some t) p = ground arith

  -- Where the system lets it send, the sniffer answers a captured packet exactly when it is a TCP packet
  -- over IP whose only flag is SYN and whose sequence number is not the largest of four bytes, and
  -- the one answer goes to its source with the number that follows its sequence number. That holds
  -- whoever sent it, also for the packets of this machine itself: the address of the interface is no
  -- part of the condition. Otherwise nothing is sent.
  pub answers-capture_logic :
      (k : Packet) → answers (capture_logic q k) ≡ scan_answer q.can_send k.ip k.tcp
  unfolding capture_logic get_payloads
  answers-capture_logic k =
      let (p, o) = read_layers q k.layers k.layers no_payloads in
      answers-append (o ++ log_payloads q k p ++ log_icmp q k.ip k.icmp)
        (answer_scan q k.ip k.tcp p)
      ∙ rw
          (
            answers-append (o ++ log_payloads q k p) (log_icmp q k.ip k.icmp),
            answers-append o (log_payloads q k p),
            read_layers_silent k.layers k.layers no_payloads,
            log_payloads_silent k p,
            log_icmp_silent k.ip k.icmp,
          )
          (answers-answer_scan k.ip k.tcp p)
