-- ===== src/Netpackets/Ether/Wire.antt =====
-- What `pack_ether_hdr` and `pack_ether_frame` put on the wire.
use socketlab.Base.{
  ℕ, ◌+◌, ◌^◌, ◌≤◌, ◌<◌, ◌≡◌, ap, List, [], ◌∷◌, ◌++◌, some, arith, length, drop, take_all,
  six_cases, htons, le16-htons, be16,
}
use socketlab.Netpackets.Ether.{
  EtherHdr, ether_bytes, ether_of_bytes, pack_ether_hdr, pack_ether_frame, ether_hdr_size,
  eth_data_max_len,
}

-- Destination, source and protocol, in this order and in network byte order.
pub ether_wire :
    (dst source : List ℕ) (proto : ℕ)
    → length dst ≡ 6
    → length source ≡ 6
    → proto < 2 ^ 16
    → ether_bytes (pack_ether_hdr dst source proto) ≡ dst ++ (source ++ be16 proto)
unfolding pack_ether_hdr
ether_wire dst source proto d s p =
    rw (take_all 6 dst (omega arith), take_all 6 source (omega arith))
      (ap (λ w. dst ++ (source ++ w)) (le16-htons proto p))

-- What a frame must satisfy to carry `payload` under the header.
abbrev pub Carries : List ℕ → ℕ → EtherHdr → List ℕ → Type 0
Carries payload proto hdr frame =
    (length frame ≡ length payload + ether_hdr_size)
    × (ether_of_bytes frame ≡ hdr)
    × (htons (ether_of_bytes frame).proto_type ≡ proto)
    × (drop ether_hdr_size frame ≡ payload)

ether_bytes-Carries :
    (dst source : List ℕ) (proto : ℕ) (payload : List ℕ)
    → length dst ≡ 6
    → length source ≡ 6
    → proto < 2 ^ 16
    → Carries payload proto
        (pack_ether_hdr dst source proto)
        (ether_bytes (pack_ether_hdr dst source proto) ++ payload)
unfolding pack_ether_hdr ether_of_bytes htons
ether_bytes-Carries dst source proto payload d s p =
    six_cases (λ dst. Goal dst source)
      (λ a b c d e f.
        six_cases (Goal (a ∷ b ∷ c ∷ d ∷ e ∷ f ∷ [])) (λ u v w x y z. ground arith) source s)
      dst d
  where
    Goal : List ℕ → List ℕ → Type 0
    Goal dst source =
        Carries payload proto (pack_ether_hdr dst source proto)
          (ether_bytes (pack_ether_hdr dst source proto) ++ payload)

-- With six-byte addresses and at most 1500 bytes of data `pack_ether_frame` builds a frame, and
-- returns its length; the header, the protocol and the data can be read back from the frame.
pack_ether_frame_lem :
    (dst source : List ℕ) (proto : ℕ) (payload : List ℕ)
    → length dst ≡ 6
    → length source ≡ 6
    → proto < 2 ^ 16
    → length payload ≤ eth_data_max_len
    → (frame : List ℕ) × (pack_ether_frame dst source proto payload ≡ some (frame, length frame))
      × Carries payload proto (pack_ether_hdr dst source proto) frame
unfolding pack_ether_frame
pack_ether_frame_lem dst source proto payload d s p l =
    let c = ether_bytes-Carries dst source proto payload d s p in
    (ether_bytes (pack_ether_hdr dst source proto) ++ payload, ground (arith, c.0), c)
