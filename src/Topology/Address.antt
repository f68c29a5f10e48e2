-- ===== src/Topology/Address.antt =====
-- `isAddress` and `splitAddresses`.
pub mod Laws
use argus_observability.Prelude.{
  ℕ, zero, suc, ◌+◌, ◌-◌, ◌++◌, Bool, true, false, ◌||◌, ◌&&◌, not, Option, none, some, List, [],
  ◌∷◌, if◌then◌else◌, leb, ltb, ◌==◌, ◌≡◌, refl, length, any,
}
use argus_observability.Prelude.Text.{Text, includes, lit}
use argus_observability.Topology.Build.{ServiceView}

unfoldable pub is_digit : ℕ → Bool
is_digit c = leb b'0' c && leb c b'9'

-- `[0-9a-f]`, and with `A` to `F` under the flag `i`.
unfoldable pub is_hex_lower : ℕ → Bool
unfolding is_digit
is_hex_lower c = is_digit c || (leb b'a' c && leb c b'f')

unfoldable pub is_hex : ℕ → Bool
unfolding is_hex_lower
is_hex c = is_hex_lower c || (leb b'A' c && leb c b'F')

unfoldable pub all_units : (ℕ → Bool) → Text → Bool
all_units p [] = true
all_units p (c ∷ s) = p c && all_units p s

-- `/^\d{1,3}(\.\d{1,3}){3}$/`: `dots` groups are still to come after this one, and `seen` digits of
-- this group are read.
unfoldable pub ipv4_from : ℕ → ℕ → Text → Bool
unfolding is_digit
ipv4_from dots seen [] = dots == 0 && leb 1 seen
ipv4_from dots seen (c ∷ s) =
    if is_digit c
    then ltb seen 3 && ipv4_from dots (seen + 1) s
    else c == b'.' && (leb 1 seen && (leb 1 dots && ipv4_from (dots - 1) 0 s))

unfoldable pub is_ipv4 : Text → Bool
unfolding ipv4_from
is_ipv4 id = ipv4_from 3 0 id

-- `/^[0-9a-f]{12}$/`.
unfoldable pub is_container_hash : Text → Bool
unfolding all_units is_hex_lower
is_container_hash id = length id == 12 && all_units is_hex_lower id

-- `id.includes(":") && /^[0-9a-f:]+$/i.test(id)`; a text with a colon is not empty.
unfoldable pub is_ipv6 : Text → Bool
unfolding all_units is_hex includes lit
is_ipv6 id = includes id (lit ":") && all_units (λ c. is_hex c || c == b':') id

unfoldable pub is_address : Text → Bool
unfolding is_ipv4 is_ipv6 is_container_hash
is_address id = is_ipv4 id || is_ipv6 id || is_container_hash id

pub record Split : Type 0 where
  pub named : List ServiceView
  pub addresses : List ServiceView

-- The loop of `splitAddresses`, with `push` at the end of either list.
split_from : List ServiceView → List ServiceView → List ServiceView → Split
split_from named addresses [] = record { named = named; addresses = addresses }
split_from named addresses (s ∷ services) =
    split_from (if is_address s.id then named else named ++ (s ∷ []))
      (if is_address s.id then addresses ++ (s ∷ []) else addresses) services

unfoldable pub split_addresses : List ServiceView → Split
unfolding split_from
split_addresses services = split_from [] [] services
