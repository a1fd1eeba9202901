-- ===== src/Access/RealIp.antt =====
-- The address of a visitor (middleware/realip.go). Addresses and ranges are `net.IP` and `net.IPNet`,
-- which are parameters.
use zyranet_api.Base.{Bool, true, false, Option, none, some, List, [], ◌∷◌, if◌then◌else◌}
use zyranet_api.Text.{Text, trim_space}
use zyranet_api.Text.Cut.{split}

pub record Net (Ip : Type 0) : Type 0 where
  pub parse_ip : Text → Option Ip
  pub show_ip : Ip → Text
  pub is_local : Ip → Bool
  pub is_cloudflare : Ip → Bool

pub data Header : Type 0 where
  x_real_ip x_forwarded_for cf_connecting_ip : Header

module _ {Ip : Type 0} (net : Net Ip) where
  abbrev pub first_part : List Text → Option Ip
  first_part [] = none
  first_part (part ∷ parts) = net.parse_ip (trim_space part)

  -- The last entry that is an address.
  abbrev pub last_part : List Text → Option Ip
  last_part [] = none
  last_part (part ∷ parts) = elim (last_part parts) [
    | some ip ↦ some ip
    | none ↦ net.parse_ip (trim_space part)
  ]

  unfoldable pub header_ip : Text → Bool → Option Ip
  header_ip v true = last_part (split b',' v)
  header_ip v false = first_part (split b',' v)

  abbrev pub shown : Option Ip → Text
  shown none = []
  shown (some ip) = net.show_ip ip

  abbrev pub in_range : (Ip → Bool) → Option Ip → Bool
  in_range range none = false
  in_range range (some ip) = range ip

  -- The visitor behind Cloudflare, if the hop is Cloudflare's and names one.
  abbrev pub behind_cloudflare : Option Ip → (Header → Text) → Text
  behind_cloudflare hop header =
      if in_range net.is_cloudflare hop
      then elim (header_ip (header cf_connecting_ip) false) [
        | some ip ↦ net.show_ip ip
        | none ↦ shown hop
      ]
      else shown hop

  -- `peer` is the other end of the connection.
  unfoldable pub resolve_client_ip : Option Ip → (Header → Text) → Text
  resolve_client_ip peer header =
      if in_range net.is_local peer
      then elim (header_ip (header x_real_ip) false) [
        | some ip ↦ behind_cloudflare (some ip) header
        | none ↦ elim (header_ip (header x_forwarded_for) true) [
          | some ip ↦ behind_cloudflare (some ip) header
          | none ↦ elim (header_ip (header cf_connecting_ip) false) [
            | some ip ↦ net.show_ip ip
            | none ↦ behind_cloudflare peer header
          ]
        ]
      ]
      else behind_cloudflare peer header
