-- ===== src/Net/Arp.antt =====
-- include/net/arp.hpp and net/arp.cpp: `ArpDriver`. A packet is a block of memory, so the queue and
-- the handlers hold addresses of packets; a 16-bit field is the number as it is stored. A lock is
-- taken and released within one operation.
pub mod Tables
pub mod Receive
use modern.Base.{
  ℕ, zero, suc, ◌+◌, ◌%◌, Bool, true, false, not, Option, none, some, List, [], ◌∷◌, ◌++◌, ◌>>=◌,
  ◌>>◌, guard, ◌==◌, ◌&&◌, if◌then◌else◌, get_or, replicate,
}
use modern.Endian.{swap_endian16, swap_endian8, be16}
use modern.SsQueue.{SsQueue, enq, deq}
use modern.Net.Address.{EthernetAddress, Ipv4Address, eth_lt, ip_lt, broadcast}
use modern.Net.Map.{OrderedMap}

abbrev pub opcode_request : ℕ
opcode_request = 1

abbrev pub opcode_reply : ℕ
opcode_reply = 2

abbrev pub hw_space_ethernet : ℕ
hw_space_ethernet = 1

abbrev pub proto_space_ipv4 : ℕ
proto_space_ipv4 = 0x0800

abbrev pub ether_type_arp : ℕ
ether_type_arp = 0x0806

pub record ArpPacket : Type 0 where
  pub hardware_address_space : ℕ
  pub protocol_address_space : ℕ
  pub hw_len : ℕ
  pub proto_len : ℕ
  pub opcode : ℕ
  pub hw_sender : EthernetAddress
  pub proto_sender : Ipv4Address
  pub hw_target : EthernetAddress
  pub proto_target : Ipv4Address

-- what `EthernetDriver::TxEnqueue` is called with
pub record Frame : Type 0 where
  pub dst : EthernetAddress
  pub protocol : ℕ
  pub payload : ArpPacket

-- `IPDriver::address` and `IPDriver::gateway_address`
abbrev pub ip_address : Ipv4Address
ip_address = 172 ∷ 20 ∷ 0 ∷ 3 ∷ []

abbrev pub gateway_address : Ipv4Address
gateway_address = 172 ∷ 20 ∷ 0 ∷ 1 ∷ []

abbrev pub update {ℓ} : {A : Type ℓ} → (ℕ → A) → ℕ → A → ℕ → A
update f i v j = if j == i then v else f j

module _ (eth : OrderedMap EthernetAddress Ipv4Address eth_lt)
    (ips : OrderedMap Ipv4Address EthernetAddress ip_lt) (driver_address : EthernetAddress) where
  -- The driver, the packets in memory, and the frames handed to the Ethernet driver, newest last.
  pub record ArpDriver : Type 0 where
    pub has_ip_driver : Bool
    pub eth2ip : eth.Table
    pub ip2eth : ips.Table
    pub tmp_pkt : ℕ
    pub rx_queue : SsQueue
    pub packets : ℕ → ArpPacket
    pub sent : List Frame

  unfoldable pub put : ArpDriver → EthernetAddress → Ipv4Address → ArpDriver
  put d mac ip = record d {
    eth2ip = eth.assign mac ip d.eth2ip;
    ip2eth = ips.assign ip mac d.ip2eth;
  }

  unfoldable pub find_ip : ArpDriver → Ipv4Address → Option EthernetAddress
  find_ip d ip = ips.find ip d.ip2eth

  unfoldable pub find_mac : ArpDriver → EthernetAddress → Option Ipv4Address
  find_mac d mac = eth.find mac d.eth2ip

  unfoldable pub set_ip_driver : ArpDriver → ArpDriver
  unfolding put
  set_ip_driver d = put (record d { has_ip_driver = true }) driver_address ip_address

  -- Whether the packet was taken, and the driver; a full queue drops it.
  unfoldable pub queue_up_mapping : ArpDriver → ArpPacket → Bool × ArpDriver
  queue_up_mapping d packet =
      let copied = update d.packets d.tmp_pkt packet in
      let (success, tmp, queue) = enq d.rx_queue d.tmp_pkt in
      (success, record d { packets = copied; tmp_pkt = tmp; rx_queue = queue })

  -- `HandleRx` on the packet that the frame holds; `none` is a failed assertion.
  unfoldable pub handle_rx : ArpDriver → ArpPacket → Option ArpDriver
  unfolding queue_up_mapping
  handle_rx d packet =
      if not (
        be16 packet.hardware_address_space == hw_space_ethernet
        && be16 packet.protocol_address_space == proto_space_ipv4)
      then some d
      else (do
        guard (packet.hw_len == 6)
        guard (packet.proto_len == 4)
        some (
            if be16 packet.opcode == opcode_request
            then (queue_up_mapping d packet).1
            else if be16 packet.opcode == opcode_reply
            then (queue_up_mapping d packet).1
            else d))

  unfoldable pub reply_to : ArpDriver → ArpPacket → EthernetAddress → ArpPacket
  unfolding swap_endian16 swap_endian8
  reply_to d packet mac_target = record {
    hardware_address_space = be16 hw_space_ethernet;
    protocol_address_space = be16 proto_space_ipv4;
    hw_len = swap_endian8 6;
    proto_len = swap_endian8 4;
    opcode = be16 opcode_reply;
    hw_sender = driver_address;
    proto_sender = ip_address;
    hw_target = mac_target;
    proto_target = packet.proto_target;
  }

  unfoldable pub handle_request : ArpDriver → ArpPacket → Option ArpDriver
  handle_request d packet = do
    guard (be16 packet.opcode == opcode_request)
    elim (find_ip d packet.proto_target) [
      | none ↦ some d
      | some mac ↦ some (
          if d.has_ip_driver
          then record d {
            sent =
                d.sent
                ++ (record {
                  dst = packet.hw_sender;
                  protocol = ether_type_arp;
                  payload = reply_to d packet mac;
                }
                    ∷ []);
          }
          else d)
    ]

  -- The thread's packet and the driver afterwards.
  unfoldable pub arp_thread_poll_rx : ArpDriver → ℕ → Option (ℕ × ArpDriver)
  arp_thread_poll_rx d packet =
      let (success, p, queue) = deq d.rx_queue packet in
      if not success then some (packet, d) else (do
        let pkt = d.packets p
        let d' = put (record d { rx_queue = queue }) pkt.hw_sender pkt.proto_sender
        d'' ← (if be16 pkt.opcode == opcode_request then handle_request d' pkt else some d')
        some (p, d''))

  unfoldable pub request : ArpDriver → Ipv4Address → ArpDriver
  unfolding swap_endian16 swap_endian8
  request d ip_target = record d {
    sent =
        d.sent
        ++ (record {
          dst = broadcast;
          protocol = ether_type_arp;
          payload = record {
            hardware_address_space = be16 hw_space_ethernet;
            protocol_address_space = be16 proto_space_ipv4;
            hw_len = swap_endian8 6;
            proto_len = swap_endian8 4;
            opcode = be16 opcode_request;
            hw_sender = driver_address;
            proto_sender = ip_address;
            hw_target = replicate 6 0;
            proto_target = ip_target;
          };
        }
            ∷ []);
  }

  -- It calls through `ip_driver_`; `none` where that is null.
  unfoldable pub request_gateway_ethernet_address : ArpDriver → Option ArpDriver
  unfolding request
  request_gateway_ethernet_address d =
      if d.has_ip_driver then some (request d gateway_address) else none

  -- Round `i` of the loop of `ArpThreadStart`, `n` rounds left.
  unfoldable pub arp_thread : ArpDriver → ℕ → ℕ → ℕ → Option (ℕ × ArpDriver)
  unfolding arp_thread_poll_rx request_gateway_ethernet_address
  arp_thread d packet i zero = some (packet, d)
  arp_thread d packet i (suc n) = do
    (packet', d') ← arp_thread_poll_rx d packet
    d'' ← (if i % 10000 == 0 then request_gateway_ethernet_address d' else some d')
    arp_thread d'' packet' (i + 1) n
