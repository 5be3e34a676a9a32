-- ===== src/Wire/Arp/RoundTrip.antt =====
-- An ARP message is read back from the bytes that it is written as.
use nju_networking_lab.Base.{
  ℕ, ◌^◌, ◌<◌, ◌≡◌, refl, ◌∙◌, arith, List, [], ◌++◌, append-nil, append_assoc,
}
use nju_networking_lab.Base.{length, length-append, IsU32, some, ltb, true, false}
use nju_networking_lab.Wire.Parser.{parser, no_error, unparse_int, put_u8, put_u16, put_u32}
use nju_networking_lab.Wire.Parser.RoundTrip.{u8_lem, u16_lem, u32_lem}
use nju_networking_lab.Wire.Ethernet.{put_bytes}
use nju_networking_lab.Wire.Ethernet.Addresses.{IsAddress, put_bytes_lem, address_lem}
use nju_networking_lab.Wire.Arp.{
  ArpMessage, zero_address, supported, parse_addresses, parse, serialize,
}

-- The bytes of a message, one field after the other.
layout : ArpMessage → List ℕ
layout m =
    unparse_int 2 m.hardware_type
    ++ (unparse_int 2 m.protocol_type
        ++ (unparse_int 1 m.hardware_address_size
            ++ (unparse_int 1 m.protocol_address_size
                ++ (unparse_int 2 m.opcode
                    ++ (m.sender_ethernet_address
                        ++ (unparse_int 4 m.sender_ip_address
                            ++ (m.target_ethernet_address
                                ++ (unparse_int 4 m.target_ip_address ++ []))))))))

-- A message whose fields are in range.
pub record IsMessage (m : ArpMessage) : Type 0 where
  pub is_supported : supported m ≡ true
  pub sender : IsAddress m.sender_ethernet_address
  pub sender_ip : IsU32 m.sender_ip_address
  pub target : IsAddress m.target_ethernet_address
  pub target_ip : IsU32 m.target_ip_address

serialize_lem : (m : ArpMessage) → IsMessage m → serialize m ≡ some (layout m)
unfolding serialize layout put_u8 put_u16 put_u32
serialize_lem m v = simp (v.is_supported, put_sender, put_target, append_assoc, append-nil) refl
  where
    put_sender :
        (s : List ℕ) → put_bytes s m.sender_ethernet_address ≡ s ++ m.sender_ethernet_address
    put_sender s = put_bytes_lem s m.sender_ethernet_address v.sender.1

    put_target :
        (s : List ℕ) → put_bytes s m.target_ethernet_address ≡ s ++ m.target_ethernet_address
    put_target s = put_bytes_lem s m.target_ethernet_address v.target.1

parse_addresses_lem :
    (blank m : ArpMessage)
    → IsMessage m
    → parse_addresses blank (
        parser (
          m.sender_ethernet_address
          ++ (unparse_int 4 m.sender_ip_address
              ++ (m.target_ethernet_address ++ (unparse_int 4 m.target_ip_address ++ [])))))
      ≡ (
        no_error,
        record blank {
          sender_ethernet_address = m.sender_ethernet_address;
          sender_ip_address = m.sender_ip_address;
          target_ethernet_address = m.target_ethernet_address;
          target_ip_address = m.target_ip_address;
        },
      )
unfolding parse_addresses
parse_addresses_lem blank m v =
    rw
      (
        address_lem m.sender_ethernet_address
            (unparse_int 4 m.sender_ip_address
              ++ (m.target_ethernet_address ++ (unparse_int 4 m.target_ip_address ++ [])))
            v.sender,
        u32_lem m.sender_ip_address
            (m.target_ethernet_address ++ (unparse_int 4 m.target_ip_address ++ [])) v.sender_ip,
        address_lem m.target_ethernet_address (unparse_int 4 m.target_ip_address ++ []) v.target,
        u32_lem m.target_ip_address [] v.target_ip,
      )
      refl

-- The fields in front of the addresses, read one by one.
kinds :
    (m : ArpMessage)
    → supported m ≡ true
    → (m.hardware_type < 2 ^ 16)
      × (m.protocol_type < 2 ^ 16)
      × (m.hardware_address_size < 2 ^ 8)
      × (m.protocol_address_size < 2 ^ 8)
      × (m.opcode < 2 ^ 16)
unfolding supported
kinds m h = ground arith

length-layout : (m : ArpMessage) → IsMessage m → length (layout m) ≡ 28
unfolding layout unparse_int
length-layout m v = simp (length-append) (omega (arith, v.sender.0, v.target.0))

abbrev blanked : ArpMessage → ArpMessage
blanked m = record m {
  sender_ethernet_address = zero_address;
  sender_ip_address = 0;
  target_ethernet_address = zero_address;
  target_ip_address = 0;
}

kind_of_blanked : (m : ArpMessage) → supported (blanked m) ≡ supported m
unfolding supported
kind_of_blanked m = refl

parse_lem : (m : ArpMessage) → IsMessage m → parse (layout m) ≡ (no_error, m)
unfolding parse layout
parse_lem m v =
    let k = kinds m v.is_supported in
    let long : ltb (length (layout m)) 28 ≡ false = ground (arith, length-layout m v) in
    rw
      (
        u16_lem m.hardware_type _ k.0,
        u16_lem m.protocol_type _ k.1,
        u8_lem m.hardware_address_size _ k.2,
        u8_lem m.protocol_address_size _ k.3,
        u16_lem m.opcode _ k.4,
        long,
        kind_of_blanked m ∙ v.is_supported,
        parse_addresses_lem (blanked m) m v,
      )
      refl

-- Every message that the code supports, with its fields in range, is written as 28 bytes without
-- an exception and read back as it was.
pub parse-serialize :
    (m : ArpMessage)
    → IsMessage m
    → (bytes : List ℕ) × (serialize m ≡ some bytes)
      × (length bytes ≡ 28)
      × (parse bytes ≡ (no_error, m))
parse-serialize m v = (layout m, serialize_lem m v, length-layout m v, parse_lem m v)
