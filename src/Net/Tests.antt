-- ===== src/Net/Tests.antt =====
-- The drivers at small inputs.
use modern.Base.{◌≡◌, true, some, [], ◌∷◌, replicate, refl, arith}
use modern.Endian.{swap_endian16}
use modern.SsQueue.{deq}
use modern.Net.Address.{EthernetAddress, Ipv4Address, eth_lt, ip_lt}
use modern.Net.Map.{OrderedMap, list_map}
use modern.Net.Arp.{
  ArpPacket, ArpDriver, queue_up_mapping, arp_thread_poll_rx, ip_address, ether_type_arp,
}
use modern.Net.Arp.Tables.{poll-request}
use modern.Net.Arp.Receive.{IsReceiving, waiting, packet_enq, queue_up_mapping_lem}

abbrev mac : EthernetAddress
mac = 0x52 ∷ 0x54 ∷ 0 ∷ 0x12 ∷ 0x34 ∷ 0x56 ∷ []

abbrev other_mac : EthernetAddress
other_mac = 0x52 ∷ 0x54 ∷ 0 ∷ 0x12 ∷ 0x34 ∷ 0x57 ∷ []

abbrev own : EthernetAddress
own = 2 ∷ 0 ∷ 0 ∷ 0 ∷ 0 ∷ 1 ∷ []

abbrev eth : OrderedMap EthernetAddress Ipv4Address eth_lt
eth = list_map eth_lt

abbrev ips : OrderedMap Ipv4Address EthernetAddress ip_lt
ips = list_map ip_lt

-- a request, in network order, for the address `target`
abbrev who_has : Ipv4Address → ArpPacket
who_has target = record {
  hardware_address_space = 0x100;
  protocol_address_space = 8;
  hw_len = 6;
  proto_len = 4;
  opcode = 0x100;
  hw_sender = mac;
  proto_sender = 172 ∷ 20 ∷ 0 ∷ 9 ∷ [];
  hw_target = replicate 6 0;
  proto_target = target;
}

-- one request waits in slot 0
abbrev driver : ArpDriver eth ips own
driver = record {
  has_ip_driver = true;
  eth2ip = [];
  ip2eth = [];
  tmp_pkt = 5;
  rx_queue = record { rx_queue = 1 ∷ 2 ∷ 3 ∷ 4 ∷ []; rx_start = 0; rx_end = 1 };
  packets = λ i. who_has (10 ∷ 0 ∷ 0 ∷ 1 ∷ []);
  sent = [];
}

driver-IsReceiving : IsReceiving eth ips own driver
driver-IsReceiving = record {
  ring = omega arith;
  distinct = (refl, (refl, (refl, (refl, (refl, tt)))));
}

poll-request_example :
    (d' : ArpDriver eth ips own) × (arp_thread_poll_rx eth ips own driver 6
      ≡ some ((deq driver.rx_queue 6).1, d'))
    × (d'.sent
        ≡ record {
          dst = mac;
          protocol = ether_type_arp;
          payload = record {
            hardware_address_space = 0x0100;
            protocol_address_space = 0x0008;
            hw_len = 6;
            proto_len = 4;
            opcode = 0x0200;
            hw_sender = own;
            proto_sender = 172 ∷ 20 ∷ 0 ∷ 3 ∷ [];
            hw_target = mac;
            proto_target = 10 ∷ 0 ∷ 0 ∷ 1 ∷ [];
          };
        }
          ∷ [])
    × (d'.rx_queue ≡ (deq driver.rx_queue 6).2)
unfolding deq swap_endian16
poll-request_example = poll-request eth ips own driver 6 refl refl refl

queue_up_mapping_lem_example :
    let (success, d') = queue_up_mapping eth ips own driver (who_has ip_address) in
    ((success, waiting eth ips own d')
      ≡ packet_enq 3 (waiting eth ips own driver) (who_has ip_address))
    × IsReceiving eth ips own d'
queue_up_mapping_lem_example =
    queue_up_mapping_lem eth ips own {d = driver} (who_has ip_address) driver-IsReceiving
