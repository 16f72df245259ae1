-- ===== src/Notification/Policy/Table.antt =====
-- What the address rule comes to.
use video_processor.Prelude.{
  true, false, Bool-cases, ◌≡◌, ◌↔◌, ◌≢◌, refl, inl, inr, Text, [], arith,
}
use video_processor.Errors.{ok}
use video_processor.Notification.Policy.{
  Addr, invalid, ipv4, ipv6, contains, unwrap_embedded_ipv4, refused_prefixes, any_contains,
  refused_by_predicates, check_addr, check_unwrapped,
}

predicates_listed :
    (a : Addr)
    → a ≢ invalid
    → refused_by_predicates a ≡ true
    → any_contains refused_prefixes a ≡ true
unfolding refused_by_predicates any_contains refused_prefixes contains
predicates_listed invalid v h = absurd (v refl)
predicates_listed (ipv4 bits) v h = ground arith
predicates_listed (ipv6 high low zone) v h = ground arith

abbrev pub zone_of : Addr → Text
zone_of (ipv6 high low zone) = zone
zone_of _ = []

unwrapped-valid : (a : Addr) → a ≢ invalid → unwrap_embedded_ipv4 a ≢ invalid
unfolding unwrap_embedded_ipv4
unwrapped-valid invalid v e = v refl
unwrapped-valid (ipv4 bits) v e = ground arith
unwrapped-valid (ipv6 high low zone) v e = ground arith

check_listed :
    (a : Addr)
    → a ≢ invalid
    → (check_unwrapped a ≡ ok tt) ↔ (any_contains refused_prefixes a ≡ false)
check_listed a v = elim (Bool-cases (refused_by_predicates a)) [
  | inl e ↦ ground (arith, predicates_listed a v e)
  | inr f ↦ ground arith
]

-- An address may be dialled under the strict policy exactly when it is valid, has no zone, and lies,
-- or the IPv4 address that it embeds lies, in no range of the table: the predicates of the standard
-- library refuse nothing that the table does not.
pub check_addr_iff :
    (a : Addr)
    → (check_addr false a ≡ ok tt) ↔ (
        (a ≢ invalid)
        × (zone_of a ≡ [])
        × (any_contains refused_prefixes (unwrap_embedded_ipv4 a) ≡ false))
unfolding check_addr
check_addr_iff invalid = ground arith
check_addr_iff (ipv4 bits) = ground (
  arith,
  check_listed (unwrap_embedded_ipv4 (ipv4 bits))
      (unwrapped-valid (ipv4 bits) (λ e. absurd (ground arith))),
)
check_addr_iff (ipv6 high low zone) = ground (
  arith,
  check_listed (unwrap_embedded_ipv4 (ipv6 high low zone))
      (unwrapped-valid (ipv6 high low zone) (λ e. absurd (ground arith))),
)
