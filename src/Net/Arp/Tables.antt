-- ===== src/Net/Arp/Tables.antt =====
-- The two tables of `ArpDriver`, and the replies that come of them.
use modern.Base.{ℕ, ◌≡◌, true, some, [], ◌∷◌, ◌++◌, ◌==◌, if◌then◌else◌, refl, ◌∙◌}
use modern.Endian.{be16, swap_endian16, swap_endian8}
use modern.SsQueue.{deq}
use modern.Net.Address.{
  EthernetAddress, Ipv4Address, eth_lt, ip_lt, eth_eq, equivalent_eth, equivalent_ip,
}
use modern.Net.Map.{OrderedMap}
use modern.Net.Arp.{
  ArpPacket, ArpDriver, put, find_ip, find_mac, reply_to, handle_request, arp_thread_poll_rx,
  opcode_request, ether_type_arp,
}

module _ (eth : OrderedMap EthernetAddress Ipv4Address eth_lt)
    (ips : OrderedMap Ipv4Address EthernetAddress ip_lt) (driver_address : EthernetAddress) where
  -- After `put` the hardware address finds the new protocol address, and every other hardware address
  -- finds what it found before.
  pub find_mac-put :
      (d : ArpDriver eth ips driver_address) (mac j : EthernetAddress) (ip : Ipv4Address)
      → find_mac eth ips driver_address (put eth ips driver_address d mac ip) j
        ≡ (if eth_eq mac j then some ip else find_mac eth ips driver_address d j)
  unfolding find_mac put
  find_mac-put d mac j ip = eth.find-assign mac j ip d.eth2ip ∙ rw (equivalent_eth mac j)

  -- After `put` every protocol address finds the new hardware address, also one that was put before
  -- with another: the table from protocol addresses holds one entry at most.
  pub find_ip-put :
      (d : ArpDriver eth ips driver_address) (mac : EthernetAddress) (ip j : Ipv4Address)
      → find_ip eth ips driver_address (put eth ips driver_address d mac ip) j ≡ some mac
  unfolding find_ip put
  find_ip-put d mac ip j = ips.find-assign ip j mac d.ip2eth ∙ rw (equivalent_ip ip j)

  -- the driver behind one more frame
  abbrev pub with_reply :
      ArpDriver eth ips driver_address
      → ArpPacket
      → EthernetAddress
      → ArpDriver eth ips driver_address
  with_reply d packet mac = record d {
    sent =
        d.sent
        ++ (record {
          dst = packet.hw_sender;
          protocol = ether_type_arp;
          payload = reply_to eth ips driver_address d packet mac;
        }
            ∷ []);
  }

  handle_request_lem :
      (d : ArpDriver eth ips driver_address) (packet : ArpPacket) (mac : EthernetAddress)
      → d.has_ip_driver ≡ true
      → (be16 packet.opcode == opcode_request) ≡ true
      → find_ip eth ips driver_address d packet.proto_target ≡ some mac
      → handle_request eth ips driver_address d packet ≡ some (with_reply d packet mac)
  unfolding handle_request
  handle_request_lem d packet mac ip op found = rw (op, found, handle_request) (rw ip)

  poll_lem :
      (d : ArpDriver eth ips driver_address) (packet : ℕ)
      → d.has_ip_driver ≡ true
      → (deq d.rx_queue packet).0 ≡ true
      → (be16 (d.packets (deq d.rx_queue packet).1).opcode == opcode_request) ≡ true
      → let p = (deq d.rx_queue packet).1 in
        let pkt = d.packets p in
        arp_thread_poll_rx eth ips driver_address d packet
        ≡ some (
          p,
          with_reply
              (put eth ips driver_address
                (record d { rx_queue = (deq d.rx_queue packet).2 })
                pkt.hw_sender
                pkt.proto_sender)
              pkt
              pkt.hw_sender,
        )
  unfolding arp_thread_poll_rx
  poll_lem d packet ip ready op =
      let p = (deq d.rx_queue packet).1 in
      let pkt = d.packets p in
      let d1 = record d { rx_queue = (deq d.rx_queue packet).2 } in
      rw (
        ready,
        op,
        handle_request_lem (put eth ips driver_address d1 pkt.hw_sender pkt.proto_sender) pkt
            pkt.hw_sender (unfold put in ip) op
            (find_ip-put d1 pkt.hw_sender pkt.proto_sender pkt.proto_target),
      )

  -- A request that the thread takes from the queue, with an IP driver set, is answered for every
  -- target address: one frame goes to the sender, a reply with the driver's own addresses as its
  -- sender, the sender's hardware address and the target address of the request. Its numbers are
  -- those of Ethernet and IPv4, in the byte order of the network.
  pub poll-request :
      (d : ArpDriver eth ips driver_address) (packet : ℕ)
      → d.has_ip_driver ≡ true
      → (deq d.rx_queue packet).0 ≡ true
      → (be16 (d.packets (deq d.rx_queue packet).1).opcode == opcode_request) ≡ true
      → let pkt = d.packets (deq d.rx_queue packet).1 in
        (d' : ArpDriver eth ips driver_address) × (arp_thread_poll_rx eth ips driver_address d
            packet
          ≡ some ((deq d.rx_queue packet).1, d'))
        × (d'.sent
            ≡ d.sent
              ++ (record {
                dst = pkt.hw_sender;
                protocol = 0x806;
                payload = record {
                  hardware_address_space = 0x0100;
                  protocol_address_space = 0x0008;
                  hw_len = 6;
                  proto_len = 4;
                  opcode = 0x0200;
                  hw_sender = driver_address;
                  proto_sender = 172 ∷ 20 ∷ 0 ∷ 3 ∷ [];
                  hw_target = pkt.hw_sender;
                  proto_target = pkt.proto_target;
                };
              }
                  ∷ []))
        × (d'.rx_queue ≡ (deq d.rx_queue packet).2)
  unfolding put reply_to swap_endian16 swap_endian8
  poll-request d packet ip ready op =
      let pkt = d.packets (deq d.rx_queue packet).1 in
      (
        with_reply
            (put eth ips driver_address (record d { rx_queue = (deq d.rx_queue packet).2 })
              pkt.hw_sender pkt.proto_sender)
            pkt pkt.hw_sender,
        poll_lem d packet ip ready op,
        refl,
        refl,
      )
