-- ===== src/Fortinet/Settings.antt =====
-- internal/fortinet/xml.go: the gateway's settings, from the tokens of its XML document.
pub mod Masks
pub mod Elements
pub mod Document
mod Examples
use fortivpn_go.Prelude.{
  ℕ, zero, suc, ◌+◌, ◌*◌, ◌/◌, ◌%◌, ◌^◌, Bool, true, false, not, Option, none, some, List, [], ◌∷◌,
  map, ◌==◌, if◌then◌else◌, length, ℤ, pos, atoi, Text, codes, is_empty, text_eq, trim_space,
  to_lower,
}
use fortivpn_go.Netip.{Addr, unset, v4, v6, is6, bit_len, Prefix, prefix_from, AddrText}
use fortivpn_go.Network.{bool_eq}

-- `attributes`: names in lower case, values trimmed. The map is the list of its entries in order,
-- so the last entry for a name counts.
abbrev pub Attrs : Type 0
Attrs = List (Text × Text)

unfoldable pub attributes : List (Text × Text) → Attrs
attributes [] = []
attributes ((name, value) ∷ rest) = (to_lower name, trim_space value) ∷ attributes rest

abbrev pub last_value : Option Text → Text → Text → Text → Option Text
last_value (some v) key name value = some v
last_value none key name value = if text_eq name key then some value else none

unfoldable pub find_attr : Attrs → Text → Option Text
find_attr [] key = none
find_attr ((name, value) ∷ rest) key = last_value (find_attr rest key) key name value

abbrev pub or_empty : Option Text → Text
or_empty none = []
or_empty (some v) = v

-- `attrs[key]`
unfoldable pub attr : Attrs → Text → Text
unfolding find_attr
attr attrs key = or_empty (find_attr attrs key)

-- `first`
unfoldable pub first : Attrs → List Text → Text
first values [] = []
first values (key ∷ keys) =
    if is_empty (attr values key) then first values keys else attr values key

abbrev pub prefix_keys : List Text
prefix_keys = codes "prefix" ∷ codes "prefix-len" ∷ codes "prefixlen" ∷ []

-- The bytes of an address, the first one first.
abbrev pub bytes_from : ℕ → ℕ → List ℕ
bytes_from zero a = []
bytes_from (suc k) a = (a / 2 ^ (8 * k) % 256) ∷ bytes_from k a

-- `AsSlice`
abbrev pub as_slice : Addr → List ℕ
as_slice unset = []
as_slice (v4 a) = bytes_from 4 a
as_slice (v6 a z) = bytes_from 16 a

-- The ones in front of the last `k` bits of a byte.
abbrev pub leading_ones : ℕ → ℕ → ℕ
leading_ones zero b = 0
leading_ones (suc k) b = let rest = leading_ones k b in if b / 2 ^ k % 2 == 1 then suc rest else 0

abbrev pub ones_of : List ℕ → ℕ
ones_of [] = 0
ones_of (b ∷ bs) = leading_ones 8 b + ones_of bs

-- `maskBits`: the ones in front of each byte are counted for themselves.
unfoldable pub mask_bits : Addr → ℕ
mask_bits mask = ones_of (as_slice mask)

abbrev pub or_bits : Option ℤ → ℕ → ℤ
or_bits none bits = pos bits
or_bits (some n) bits = n

abbrev pub is_mask : Option Addr → ℕ → Bool
is_mask none bits = false
is_mask (some m) bits = bit_len m == bits

abbrev pub bits_of_mask : Option Addr → ℕ
bits_of_mask none = 0
bits_of_mask (some m) = mask_bits m

module _ (net : AddrText) where
  -- The bits for an address without a length.
  unfoldable pub prefix_bits : ℕ → Text → Text → ℤ
  prefix_bits bits mask prefix_length =
      if not (is_empty mask)
      then (if is_mask (net.parse_addr mask) bits
          then pos (bits_of_mask (net.parse_addr mask))
          else or_bits (atoi mask) bits)
      else if not (is_empty prefix_length)
      then or_bits (atoi prefix_length) bits
      else pos bits

  abbrev pub addr_prefix : Option Addr → Text → Text → Option Prefix
  addr_prefix none mask prefix_length = none
  addr_prefix (some a) mask prefix_length =
      some (prefix_from a (prefix_bits (if is6 a then 128 else 32) mask prefix_length))

  abbrev pub prefix_or : Option Prefix → Option Addr → Text → Text → Option Prefix
  prefix_or (some p) a mask prefix_length = some p
  prefix_or none a mask prefix_length = addr_prefix a mask prefix_length

  -- `parsePrefix`, none for an error
  unfoldable pub parse_prefix : Text → Text → Text → Option Prefix
  unfolding prefix_bits
  parse_prefix raw mask prefix_length =
      prefix_or (net.parse_prefix raw) (net.parse_addr raw) mask prefix_length

  abbrev pub gateway_keys : Bool → List Text
  gateway_keys true =
      codes "gateway6" ∷ codes "gw6" ∷ codes "ipv6-gateway" ∷ codes "gateway" ∷ codes "gw" ∷ []
  gateway_keys false =
      codes "gateway4" ∷ codes "gw4" ∷ codes "ipv4-gateway" ∷ codes "gateway" ∷ codes "gw" ∷ []

  abbrev pub gateway_or : Bool → Option Addr → Addr → Addr
  gateway_or want6 none next = next
  gateway_or want6 (some a) next = if bool_eq (is6 a) want6 then a else next

  unfoldable pub first_gateway : Bool → Attrs → List Text → Addr
  first_gateway want6 attrs [] = unset
  first_gateway want6 attrs (key ∷ keys) =
      gateway_or want6 (net.parse_addr (attr attrs key)) (first_gateway want6 attrs keys)

  -- `parseGateway`
  unfoldable pub parse_gateway : Attrs → Bool → Addr
  unfolding first_gateway
  parse_gateway attrs want6 = first_gateway want6 attrs (gateway_keys want6)
