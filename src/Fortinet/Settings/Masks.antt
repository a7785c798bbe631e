-- ===== src/Fortinet/Settings/Masks.antt =====
-- Masks and prefix lengths of internal/fortinet/xml.go and internal/tun/utun_darwin.go.
use fortivpn_go.Prelude.{
  ℕ, zero, suc, ◌≤◌, ◌≡◌, refl, ◌⊎◌, inl, inr, true, false, none, some, List, [], ◌∷◌, map, arith,
  leb, All, Text, is_empty,
}
use fortivpn_go.Netip.{v4, prefix_from, AddrText}
use fortivpn_go.Tun.Ifconfig.{netmask}
use fortivpn_go.Fortinet.Settings.{mask_bits, prefix_bits, parse_prefix}

abbrev lengths : ℕ → List ℕ
lengths zero = 0 ∷ []
lengths (suc n) = suc n ∷ lengths n

abbrev IsCounted : ℕ → Type 0
IsCounted n = mask_bits (v4 (netmask n)) ≡ n

map-All : (f : ℕ → ℕ) (xs : List ℕ) → map f xs ≡ xs → All (λ x. f x ≡ x) xs
map-All f [] h = tt
map-All f (x ∷ xs) h = (cc, map-All f xs cc)

last_or_below : (n k : ℕ) → n ≤ suc k → (n ≡ suc k) ⊎ (n ≤ k)
last_or_below n k h = ground arith

le→leb : (a b : ℕ) → a ≤ b → leb a b ≡ true
le→leb a b h = ground arith

All-lengths : (P : ℕ → Type 0) (k n : ℕ) → n ≤ k → All P (lengths k) → P n
All-lengths P zero zero h a = a.0
All-lengths P zero (suc n) h a = absurd (omega (arith, h))
All-lengths P (suc k) n h a = elim (last_or_below n k h) [
  | inl e ↦ rw e a.0
  | inr l ↦ All-lengths P k n l a.1
]

all_counted : map (λ n. mask_bits (v4 (netmask n))) (lengths 32) ≡ lengths 32
unfolding mask_bits netmask
all_counted = refl

-- `maskBits` reads the length back from the mask that `ipv4Netmask` makes of it.
mask_bits-netmask : (n : ℕ) → n ≤ 32 → IsCounted n
mask_bits-netmask n h =
    All-lengths IsCounted 32 n h
      (map-All (λ k. mask_bits (v4 (netmask k))) (lengths 32) all_counted)

-- An IPv4 address without a length, with the mask of `n` leading ones, is a prefix of length `n`.
pub parse_prefix-netmask :
    (net : AddrText) (raw mask prefix_length : Text) (a n : ℕ)
    → n ≤ 32
    → net.parse_prefix raw ≡ none
    → net.parse_addr raw ≡ some (v4 a)
    → is_empty mask ≡ false
    → net.parse_addr mask ≡ some (v4 (netmask n))
    → parse_prefix net raw mask prefix_length ≡ some (record { addr = v4 a; bits_plus_one = suc n })
unfolding parse_prefix prefix_bits prefix_from
parse_prefix-netmask net raw mask prefix_length a n h p q e m =
    rw (p, q, e, m, mask_bits-netmask n h, le→leb n 32 h) refl
