-- ===== src/Utils/Tests.antt =====
-- Runs of the helpers at concrete values (utils/*.go).
use zyranet_api.Utils.Ports.{
  normalize_router_ports-IsPortList, normalize_router_ports, collect_ports, ports,
  valid_router_port, is_wireless_port, IsPortList,
}
use zyranet_api.Utils.Phone.{format_phone_normalises, format_phone, country, country_zero}
use zyranet_api.Base.{◌≡◌, refl, [], ◌∷◌, ◌++◌, arith, inl, true, false}
use zyranet_api.Text.{bytes, to_lower, trim_space, text_eq, trim_left, trim_right}
use zyranet_api.Text.Cut.{cut_suffix, cut_last, split}
use zyranet_api.Utils.Subdomain.{
  normalize_subdomain, subdomain_from_host, label, check_label, clean_host, clean_base,
  matches_label, is_reserved_label, subdomain_in,
}
use zyranet_api.Utils.Subdomain.Laws.{
  normalize_subdomain_idempotent, subdomain_from_host-IsLabel, IsLabel,
}

normalize_test : normalize_subdomain (bytes " Acme-Net ") ≡ label (bytes "acme-net")
unfolding normalize_subdomain check_label matches_label is_reserved_label trim_space trim_left
    trim_right to_lower text_eq
normalize_test = refl

normalize_subdomain_idempotent_example :
    normalize_subdomain (bytes "acme-net") ≡ label (bytes "acme-net")
normalize_subdomain_idempotent_example =
    normalize_subdomain_idempotent (bytes " Acme-Net ") (bytes "acme-net") normalize_test

host_test : subdomain_from_host (bytes "acme.zyranet.com:443") (bytes ".zyranet.com") ≡ bytes "acme"
unfolding subdomain_from_host subdomain_in normalize_subdomain check_label matches_label
    is_reserved_label trim_space trim_left trim_right to_lower text_eq cut_suffix cut_last
    clean_host clean_base
host_test = refl

subdomain_from_host-IsLabel_example :
    (clean_host (bytes "acme.zyranet.com:443")
      ≡ bytes "acme" ++ b'.' ∷ clean_base (bytes ".zyranet.com"))
    × IsLabel (bytes "acme")
subdomain_from_host-IsLabel_example =
    subdomain_from_host-IsLabel (bytes "acme.zyranet.com:443") (bytes ".zyranet.com") (bytes "acme")
      host_test (λ e. absurd (ground arith))

ports_test :
    normalize_router_ports (bytes "ether1") (bytes "ether2, ether3,ether2")
    ≡ ports (bytes "ether1") (bytes "ether2" ∷ bytes "ether3" ∷ [])
unfolding normalize_router_ports valid_router_port trim_space trim_left trim_right to_lower text_eq
    split is_wireless_port collect_ports
ports_test = refl

format_phone_normalises_example :
    format_phone (bytes "+254 (0)712-345 678") ≡ country (bytes "712345678")
format_phone_normalises_example =
    format_phone_normalises country_zero b'7' (bytes "12345678") (bytes "+254 (0)712-345 678")
      (inl refl) refl refl

normalize_router_ports-IsPortList_example :
    (valid_router_port (bytes "ether1") ≡ true)
    × (is_wireless_port (bytes "ether1") ≡ false)
    × IsPortList (bytes "ether1") (bytes "ether2" ∷ bytes "ether3" ∷ [])
normalize_router_ports-IsPortList_example =
    normalize_router_ports-IsPortList (bytes "ether1") (bytes "ether2, ether3,ether2")
      (bytes "ether1") (bytes "ether2" ∷ bytes "ether3" ∷ []) ports_test
