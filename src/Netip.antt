-- ===== src/Netip.antt =====
-- What the program uses of Go's package `net/netip`: addresses of both families, prefixes, and
-- their tests. Parsing and printing stay arguments of the code that calls them.
use native.Mathlib.Nat.{mul-div_cancel, one-le-pow}
use fortivpn_go.Prelude.{
  ℕ, suc, ◌+◌, ◌-◌, ◌*◌, ◌/◌, ◌^◌, ◌<◌, ◌≡◌, refl, ap, ◌↔◌, inl, inr, Bool, true, false, ◌&&◌,
  Option, [], arith, ltb, leb, ◌==◌, if◌then◌else◌, Bool-cases, ℤ, pos, negsuc, Text, is_empty,
  text_eq_iff, text_eq,
}

-- `netip.Addr`; `unset` is the zero value, and `v6` has a zone.
pub data Addr : Type 0 where
  unset : Addr
  v4 : ℕ → Addr
  v6 : ℕ → Text → Addr

-- `a == b`
unfoldable pub addr_eq : Addr → Addr → Bool
addr_eq unset unset = true
addr_eq (v4 a) (v4 b) = a == b
addr_eq (v6 a s) (v6 b t) = (a == b) && text_eq s t
addr_eq _ _ = false

abbrev pub addr_is_valid : Addr → Bool
addr_is_valid unset = false
addr_is_valid _ = true

abbrev pub is4 : Addr → Bool
is4 (v4 a) = true
is4 _ = false

abbrev pub is6 : Addr → Bool
is6 (v6 a s) = true
is6 _ = false

abbrev pub is_4in6 : Addr → Bool
is_4in6 (v6 a s) = a / 2 ^ 32 == 0xffff
is_4in6 _ = false

abbrev pub bit_len : Addr → ℕ
bit_len unset = 0
bit_len (v4 a) = 32
bit_len (v6 a s) = 128

abbrev pub is_unspecified : Addr → Bool
is_unspecified unset = false
is_unspecified (v4 a) = a == 0
is_unspecified (v6 a s) = (a == 0) && is_empty s

-- 224.0.0.0/4 and ff00::/8, an IPv4-mapped address by its IPv4 part
unfoldable pub is_multicast : Addr → Bool
is_multicast unset = false
is_multicast (v4 a) = a / 2 ^ 28 == 14
is_multicast (v6 a s) =
    if a / 2 ^ 32 == 0xffff then a / 2 ^ 28 == 0xffff * 16 + 14 else a / 2 ^ 120 == 0xff

abbrev pub without_zone : Addr → Addr
without_zone (v6 a s) = v6 a []
without_zone a = a

-- `netip.Prefix`: the length is kept plus one, and 0 marks an invalid prefix.
pub record Prefix : Type 0 where
  pub addr : Addr
  pub bits_plus_one : ℕ

abbrev pub zero_prefix : Prefix
zero_prefix = record { addr = unset; bits_plus_one = 0 }

unfoldable pub prefix_eq : Prefix → Prefix → Bool
unfolding addr_eq
prefix_eq p q = addr_eq p.addr q.addr && (p.bits_plus_one == q.bits_plus_one)

abbrev pub prefix_is_valid : Prefix → Bool
prefix_is_valid p = ltb 0 p.bits_plus_one

bits_of : Addr → ℤ → ℕ
bits_of unset n = 0
bits_of a (pos n) = if leb n (bit_len a) then suc n else 0
bits_of a (negsuc n) = 0

-- `netip.PrefixFrom`
unfoldable pub prefix_from : Addr → ℤ → Prefix
unfolding bits_of
prefix_from a n = record { addr = without_zone a; bits_plus_one = bits_of a n }

-- Clears the last `k` bits.
abbrev pub clear_bits : ℕ → ℕ → ℕ
clear_bits a k = a / 2 ^ k * 2 ^ k

masked_addr : Addr → ℕ → Addr
masked_addr unset n = unset
masked_addr (v4 a) n = v4 (clear_bits a (32 - n))
masked_addr (v6 a s) n = v6 (clear_bits a (128 - n)) []

-- `p.Masked()`: an invalid prefix becomes the zero one.
unfoldable pub masked : Prefix → Prefix
unfolding masked_addr
masked p =
    if prefix_is_valid p
    then record { addr = masked_addr p.addr (p.bits_plus_one - 1); bits_plus_one = p.bits_plus_one }
    else zero_prefix

pow_pos : (k : ℕ) → 0 < 2 ^ k
pow_pos k = omega (arith, one-le-pow k 2 (omega arith))

clear_bits_idem : (a k : ℕ) → clear_bits (clear_bits a k) k ≡ clear_bits a k
clear_bits_idem a k = ap (λ q. q * 2 ^ k) (mul-div_cancel (a / 2 ^ k) (pow_pos k))

masked_addr_idem : (a : Addr) (n : ℕ) → masked_addr (masked_addr a n) n ≡ masked_addr a n
unfolding masked_addr
masked_addr_idem unset n = refl
masked_addr_idem (v4 a) n = ap v4 (clear_bits_idem a (32 - n))
masked_addr_idem (v6 a s) n = ap (λ b. v6 b []) (clear_bits_idem a (128 - n))

pub masked_idem : (p : Prefix) → masked (masked p) ≡ masked p
unfolding masked
masked_idem p = elim (Bool-cases (prefix_is_valid p)) [
  | inl h ↦ rw h (rw (h, masked_addr_idem p.addr (p.bits_plus_one - 1)) refl)
  | inr h ↦ rw h refl
]

addr_in : Addr → ℕ → Addr → Bool
addr_in (v4 a) n (v4 b) = a / 2 ^ (32 - n) == b / 2 ^ (32 - n)
addr_in (v6 a s) n (v6 b t) = is_empty t && (a / 2 ^ (128 - n) == b / 2 ^ (128 - n))
addr_in _ n _ = false

-- `p.Contains(a)`
unfoldable pub prefix_contains : Prefix → Addr → Bool
unfolding addr_in
prefix_contains p a = prefix_is_valid p && addr_in p.addr (p.bits_plus_one - 1) a

pub addr_eq→eq : (a b : Addr) → addr_eq a b ≡ true → a ≡ b
unfolding addr_eq
addr_eq→eq unset unset h = refl
addr_eq→eq (v4 a) (v4 b) h = ground arith
addr_eq→eq (v6 a s) (v6 b t) h = ground (arith, text_eq_iff s t)
addr_eq→eq unset (v4 b) h = cc
addr_eq→eq unset (v6 b t) h = cc
addr_eq→eq (v4 a) unset h = cc
addr_eq→eq (v4 a) (v6 b t) h = cc
addr_eq→eq (v6 a s) unset h = cc
addr_eq→eq (v6 a s) (v4 b) h = cc

pub addr_eq_refl : (a : Addr) → addr_eq a a ≡ true
unfolding addr_eq
addr_eq_refl unset = refl
addr_eq_refl (v4 a) = ground arith
addr_eq_refl (v6 a s) = ground (arith, text_eq_iff s s)

pub prefix_eq_iff : (p q : Prefix) → (prefix_eq p q ≡ true) ↔ (p ≡ q)
unfolding prefix_eq
prefix_eq_iff p q = (
  λ h. ground (arith, addr_eq→eq p.addr q.addr),
  λ e. rw (← e) (ground (arith, addr_eq_refl p.addr)),
)

-- Parsing and printing, as the code calls them: `ParseAddr`, `ParsePrefix` and the two `String`s.
pub record AddrText : Type 0 where
  pub parse_addr : Text → Option Addr
  pub parse_prefix : Text → Option Prefix
  pub addr_string : Addr → Text
  pub prefix_string : Prefix → Text
