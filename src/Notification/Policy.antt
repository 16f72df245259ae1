-- ===== src/Notification/Policy.antt =====
-- internal/notification/domain/destination_policy.go: which destinations may be stored and which
-- addresses may be dialled. An address of `net/netip` is its bits: 32 of them, or two words of 64,
-- as `netip.Addr` holds them. `url.Parse` and `netip.ParseAddr` are parameters.
pub mod Table
use video_processor.Prelude.{
  ℕ, ◌/◌, ◌*◌, ◌==◌, Text, codes, is_empty, text_eq, has_suffix, ltb, ◌+◌, leb, slice, length, ◌-◌,
  Bool, true, false, not, ◌&&◌, ◌||◌, if◌then◌else◌, Option, none, some, List, [], ◌∷◌,
}
use Prim.Native.Nat.{◌%◌}
use video_processor.Errors.{Result, sentinel, ok, err, ◌>>=◌, ◌>>◌, refuse_if, destination_refused}

-- The zero `Addr` is not valid. An IPv6 address may have a zone.
pub data Addr : Type 0 where
  invalid : Addr
  ipv4 : (bits : ℕ) → Addr
  ipv6 : (high low : ℕ) → (zone : Text) → Addr

-- What `MustParsePrefix` makes of a range of one family: the network and the number of host bits,
-- as the power of two that divides them away. A prefix of more than 64 bits fixes the first word.
pub data Prefix : Type 0 where
  range4 : (network hosts : ℕ) → Prefix
  range6 : (network hosts : ℕ) → Prefix
  range6_low : (high network hosts : ℕ) → Prefix

-- `Contains`, of an address without a zone.
unfoldable pub contains : Prefix → Addr → Bool
contains (range4 network hosts) (ipv4 bits) = bits / hosts == network / hosts
contains (range6 network hosts) (ipv6 high low zone) = high / hosts == network / hosts
contains (range6_low first network hosts) (ipv6 high low zone) =
    high == first && low / hosts == network / hosts
contains _ _ = false

-- `Is4In6`, `Unmap`, and the well-known NAT64 prefix 64:ff9b::/96.
unfoldable pub unwrap_embedded_ipv4 : Addr → Addr
unwrap_embedded_ipv4 (ipv6 high low zone) =
    if high == 0 && low / 0x100000000 == 0xffff
    then ipv4 (low % 0x100000000)
    else if high == 0x0064ff9b00000000 && low / 0x100000000 == 0
    then ipv4 (low % 0x100000000)
    else ipv6 high low zone
unwrap_embedded_ipv4 a = a

-- The predicates of `net/netip`, on addresses that are not IPv4 mapped into IPv6.
abbrev pub is_unspecified : Addr → Bool
is_unspecified invalid = false
is_unspecified (ipv4 bits) = bits == 0
is_unspecified (ipv6 high low zone) = high == 0 && (low == 0 && is_empty zone)

abbrev pub is_loopback : Addr → Bool
is_loopback invalid = false
is_loopback (ipv4 bits) = bits / 0x1000000 == 127
is_loopback (ipv6 high low zone) = high == 0 && low == 1

abbrev pub is_link_local_unicast : Addr → Bool
is_link_local_unicast invalid = false
is_link_local_unicast (ipv4 bits) = bits / 0x10000 == 0xa9fe
is_link_local_unicast (ipv6 high low zone) = high / 0x40000000000000 == 0x3fa

-- `u16 & 0xff0f == 0xff02` on the first group.
abbrev pub is_link_local_multicast : Addr → Bool
is_link_local_multicast invalid = false
is_link_local_multicast (ipv4 bits) = bits / 0x100 == 0xe00000
is_link_local_multicast (ipv6 high low zone) =
    high / 0x100000000000000 == 0xff && (high / 0x1000000000000) % 16 == 2

abbrev pub is_interface_local_multicast : Addr → Bool
is_interface_local_multicast invalid = false
is_interface_local_multicast (ipv4 bits) = false
is_interface_local_multicast (ipv6 high low zone) =
    high / 0x100000000000000 == 0xff && (high / 0x1000000000000) % 16 == 1

abbrev pub is_multicast : Addr → Bool
is_multicast invalid = false
is_multicast (ipv4 bits) = bits / 0x10000000 == 0xe
is_multicast (ipv6 high low zone) = high / 0x100000000000000 == 0xff

abbrev pub is_private : Addr → Bool
is_private invalid = false
is_private (ipv4 bits) =
    bits / 0x1000000 == 10 || (bits / 0x100000 == 0xac1 || bits / 0x10000 == 0xc0a8)
is_private (ipv6 high low zone) = high / 0x200000000000000 == 0x7e

abbrev pub is_limited : Addr → Bool
is_limited (ipv4 bits) = bits == 0 || bits == 0xffffffff
is_limited _ = false

abbrev pub is_valid_addr : Addr → Bool
is_valid_addr invalid = false
is_valid_addr _ = true

abbrev pub is_global_unicast : Addr → Bool
is_global_unicast a =
    is_valid_addr a
    && (not (is_limited a)
        && (not (is_unspecified a)
            && (not (is_loopback a) && (not (is_multicast a) && not (is_link_local_unicast a)))))

abbrev octets : ℕ → ℕ → ℕ → ℕ → ℕ
octets a b c d = ((a * 256 + b) * 256 + c) * 256 + d

-- The first four groups of an IPv6 address.
abbrev groups : ℕ → ℕ → ℕ → ℕ → ℕ
groups a b c d = ((a * 0x10000 + b) * 0x10000 + c) * 0x10000 + d

-- `refusedPrefixes`
unfoldable pub refused_prefixes : List Prefix
refused_prefixes =
    range4 (octets 0 0 0 0) 0x1000000
    ∷ range4 (octets 10 0 0 0) 0x1000000
    ∷ range4 (octets 100 64 0 0) 0x400000
    ∷ range4 (octets 127 0 0 0) 0x1000000
    ∷ range4 (octets 169 254 0 0) 0x10000
    ∷ range4 (octets 172 16 0 0) 0x100000
    ∷ range4 (octets 192 0 0 0) 0x100
    ∷ range4 (octets 192 0 2 0) 0x100
    ∷ range4 (octets 192 168 0 0) 0x10000
    ∷ range4 (octets 198 18 0 0) 0x20000
    ∷ range4 (octets 198 51 100 0) 0x100
    ∷ range4 (octets 203 0 113 0) 0x100
    ∷ range4 (octets 224 0 0 0) 0x10000000
    ∷ range4 (octets 240 0 0 0) 0x10000000
    ∷ range6_low 0 0 1
    ∷ range6_low 0 1 1
    ∷ range6 (groups 0x64 0xff9b 1 0) 0x10000
    ∷ range6 (groups 0x100 0 0 0) 1
    ∷ range6 (groups 0x100 0 0 1) 1
    ∷ range6 (groups 0x2001 0 0 0) 0x20000000000
    ∷ range6 (groups 0x2001 0 0 0) 0x100000000
    ∷ range6 (groups 0x2001 2 0 0) 0x10000
    ∷ range6 (groups 0x2001 0xdb8 0 0) 0x100000000
    ∷ range6 (groups 0x2002 0 0 0) 0x1000000000000
    ∷ range6 (groups 0x3fff 0 0 0) 0x100000000000
    ∷ range6 (groups 0x5f00 0 0 0) 0x1000000000000
    ∷ range6 (groups 0xfc00 0 0 0) 0x200000000000000
    ∷ range6 (groups 0xfe80 0 0 0) 0x40000000000000
    ∷ range6 (groups 0xff00 0 0 0) 0x100000000000000
    ∷ []

unfoldable pub any_contains : List Prefix → Addr → Bool
any_contains [] a = false
any_contains (p ∷ ps) a = contains p a || any_contains ps a

unfoldable pub refused_by_predicates : Addr → Bool
refused_by_predicates a =
    is_unspecified a
    || (is_loopback a
        || (is_link_local_unicast a
            || (is_link_local_multicast a
                || (is_interface_local_multicast a
                    || (is_multicast a || (is_private a || not (is_global_unicast a)))))))

abbrev has_zone : Addr → Bool
has_zone (ipv6 high low zone) = not (is_empty zone)
has_zone _ = false

-- What the rules answer of an address that is valid and has no zone.
abbrev pub check_unwrapped : Addr → Result (Unit {0})
check_unwrapped a = do
  refuse_if (refused_by_predicates a) destination_refused
  refuse_if (any_contains refused_prefixes a) destination_refused
  ok tt

-- `CheckAddr`; the first argument is the policy's `allowInsecure`.
unfoldable pub check_addr : Bool → Addr → Result (Unit {0})
check_addr true a = ok tt
check_addr false a = do
  refuse_if (not (is_valid_addr a)) destination_refused
  refuse_if (has_zone a) destination_refused
  check_unwrapped (unwrap_embedded_ipv4 a)

-- What `url.Parse` finds.
pub record Url : Type 0 where
  pub scheme : Text
  pub hostname : Text

-- `strings.ToLower`, as far as the letters of ASCII go.
abbrev lower : ℕ → ℕ
lower c = if leb 65 c && leb c 90 then c + 32 else c

unfoldable pub lower_ascii : Text → Text
lower_ascii [] = []
lower_ascii (c ∷ s) = lower c ∷ lower_ascii s

-- `strings.TrimSuffix(s, ".")`
abbrev trim_dot : Text → Text
trim_dot s = if has_suffix (codes ".") s then slice s 0 (length s - 1) else s

abbrev pub is_localhost : Text → Bool
is_localhost name = text_eq name (codes "localhost") || has_suffix (codes ".localhost") name

module _ (parse_url : Text → Option Url) (parse_addr : Text → Option Addr) where
  abbrev pub check_literal : Option Addr → Result (Unit {0})
  check_literal none = ok tt
  check_literal (some a) = check_addr false a

  -- The rules that `allowInsecure` relaxes.
  abbrev pub check_secure_host : Bool → Text → Result (Unit {0})
  check_secure_host true hostname = ok tt
  check_secure_host false hostname = do
    refuse_if (is_localhost (lower_ascii (trim_dot hostname))) destination_refused
    check_literal (parse_addr hostname)

  abbrev pub check_host : Bool → Url → Result (Unit {0})
  check_host insecure u = do
    refuse_if (not insecure && not (text_eq u.scheme (codes "https"))) destination_refused
    refuse_if (is_empty u.hostname) destination_refused
    check_secure_host insecure u.hostname

  abbrev pub check_parsed : Bool → Option Url → Result (Unit {0})
  check_parsed insecure none = err (sentinel destination_refused)
  check_parsed insecure (some u) = check_host insecure u

  -- `CheckDestination`
  unfoldable pub check_destination : Bool → Text → Result (Unit {0})
  check_destination insecure destination = do
    refuse_if (is_empty destination) destination_refused
    check_parsed insecure (parse_url destination)
