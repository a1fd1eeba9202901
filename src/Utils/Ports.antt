-- ===== src/Utils/Ports.antt =====
-- Router ports that may stand in a script (utils/router_ports.go).
use zyranet_api.Base.{
  ◌≡◌, ◌≢◌, refl, Bool, true, false, not, ◌&&◌, ◌||◌, List, [], ◌∷◌, ◌++◌, ◌==◌, if◌then◌else◌,
  arith, length, All, Bool-cases, inl, inr,
}
use zyranet_api.Text.{Text, bytes, text_eq, trim_space, to_lower}
use zyranet_api.Text.Cut.{drop, has_prefix, has_text, is_digit, split, join}

abbrev pub port_kinds : List Text
port_kinds =
    bytes "ether"
    ∷ bytes "sfp"
    ∷ bytes "sfp-sfpplus"
    ∷ bytes "sfp28-"
    ∷ bytes "qsfpplus"
    ∷ bytes "combo"
    ∷ bytes "wlan"
    ∷ bytes "wifi"
    ∷ []

-- `(-[0-9])?$`
abbrev pub is_lane : Text → Bool
is_lane [] = true
is_lane (h ∷ d ∷ []) = h == b'-' && is_digit d
is_lane _ = false

-- `[0-9]{1,2}(-[0-9])?$`
abbrev pub is_port_number : Text → Bool
is_port_number [] = false
is_port_number (a ∷ []) = is_digit a
is_port_number (a ∷ b ∷ s) = is_digit a && (is_digit b && is_lane s || is_lane (b ∷ s))

abbrev pub is_port_of : Text → List Text → Bool
is_port_of name [] = false
is_port_of name (kind ∷ kinds) =
    has_prefix name kind && is_port_number (drop (length kind) name) || is_port_of name kinds

-- `^(ether|sfp|sfp-sfpplus|sfp28-|qsfpplus|combo|wlan|wifi)[0-9]{1,2}(-[0-9])?$`
unfoldable pub valid_router_port : Text → Bool
valid_router_port name = is_port_of name port_kinds

unfoldable pub is_wireless_port : Text → Bool
is_wireless_port name = has_prefix name (bytes "wlan") || has_prefix name (bytes "wifi")

pub data PortError : Type 0 where
  bad_wan bad_port both_sides : Text → PortError
  no_ports : PortError

pub data Ports : Type 0 where
  ports : Text → List Text → Ports
  refused : PortError → Ports

-- The loop over the customer ports, with those taken so far; the map of seen names holds the same.
unfoldable pub collect_ports : Text → List Text → List Text → Ports
collect_ports wan [] [] = refused no_ports
collect_ports wan [] (x ∷ taken) = ports wan (x ∷ taken)
collect_ports wan (raw ∷ raws) taken =
    let p = to_lower (trim_space raw) in
    let skip = collect_ports wan raws taken in
    let take = collect_ports wan raws (taken ++ p ∷ []) in
    if text_eq p [] || has_text p taken
    then skip
    else if not (valid_router_port p)
    then refused (bad_port p)
    else if text_eq p wan
    then refused (both_sides p)
    else take

abbrev pub or_default : Text → Text
or_default wan = if text_eq wan [] then bytes "ether1" else wan

-- The ports as a list; `lan_ports` writes it.
unfoldable pub normalize_router_ports : Text → Text → Ports
normalize_router_ports wan lan =
    let w = or_default (to_lower (trim_space wan)) in
    if not (valid_router_port w) || is_wireless_port w
    then refused (bad_wan w)
    else collect_ports w (split b',' lan) []

unfoldable pub lan_ports : List Text → Text
unfolding join
lan_ports taken = join (bytes ",") taken

-- A customer port: a real interface that is not the internet port.
pub record IsLanPort (wan : Text) (p : Text) : Type 0 where
  pub real : valid_router_port p ≡ true
  pub other : text_eq p wan ≡ false
  pub named : text_eq p [] ≡ false

-- No port stands twice.
abbrev pub DistinctPorts : List Text → Type 0
DistinctPorts [] = Unit
DistinctPorts (p ∷ ps) = (has_text p ps ≡ false) × DistinctPorts ps

text_eq_comm : (s t : Text) → text_eq s t ≡ text_eq t s
unfolding text_eq
text_eq_comm [] [] = refl
text_eq_comm [] (b ∷ t) = refl
text_eq_comm (a ∷ s) [] = refl
text_eq_comm (a ∷ s) (b ∷ t) = ground (arith, text_eq_comm s t)

has_text-append :
    (p q : Text) (xs : List Text)
    → has_text p xs ≡ false
    → text_eq q p ≡ false
    → has_text p (xs ++ q ∷ []) ≡ false
has_text-append p q [] h n = ground arith
has_text-append p q (x ∷ xs) h n = ground (arith, has_text-append p q xs)

append-DistinctPorts :
    (q : Text) (xs : List Text)
    → DistinctPorts xs
    → has_text q xs ≡ false
    → DistinctPorts (xs ++ q ∷ [])
append-DistinctPorts q [] d h = (refl, tt)
append-DistinctPorts q (x ∷ xs) d h = (
  has_text-append x q xs d.0 (ground (arith, text_eq_comm q x)),
  append-DistinctPorts q xs d.1 (ground arith),
)

append-All :
    (wan q : Text) (xs : List Text)
    → All (IsLanPort wan) xs
    → IsLanPort wan q
    → All (IsLanPort wan) (xs ++ q ∷ [])
append-All wan q [] h l = (l, tt)
append-All wan q (x ∷ xs) h l = (h.0, append-All wan q xs h.1 l)

-- What the loop gives.
pub record IsPortList (wan : Text) (taken : List Text) : Type 0 where
  pub some_port : taken ≢ []
  pub lan : All (IsLanPort wan) taken
  pub distinct : DistinctPorts taken

collect_ports-IsPortList :
    (wan w : Text) (raws taken out : List Text)
    → All (IsLanPort wan) taken
    → DistinctPorts taken
    → collect_ports wan raws taken ≡ ports w out
    → (w ≡ wan) × IsPortList wan out
unfolding collect_ports
collect_ports-IsPortList wan w [] [] out h d e = absurd (ground arith)
collect_ports-IsPortList wan w [] (x ∷ taken) out h d e =
    let this : x ∷ taken ≡ out = ground arith in
    (
      ground arith,
      rw (← this) (record { some_port = λ q. absurd (ground (arith, q)); lan = h; distinct = d }),
    )
collect_ports-IsPortList wan w (raw ∷ raws) taken out h d e =
    let p = to_lower (trim_space raw) in
    elim (Bool-cases (text_eq p [] || has_text p taken)) [
      | inl skipped ↦ collect_ports-IsPortList wan w raws taken out h d (ground arith)
      | inr fresh ↦ elim (Bool-cases (valid_router_port p)) [
        | inr bad ↦ absurd (ground arith)
        | inl real ↦ elim (Bool-cases (text_eq p wan)) [
          | inl both ↦ absurd (ground arith)
          | inr other ↦
              collect_ports-IsPortList wan w raws (taken ++ p ∷ []) out
                (append-All wan p taken h
                  (record { real = real; other = other; named = ground arith }))
                (append-DistinctPorts p taken d (ground arith)) (ground arith)
        ]
      ]
    ]

-- Ports that are accepted are at least one customer port, each a real interface name that differs from
-- the internet port, with no name twice; the internet port is a real one and not wireless.
pub normalize_router_ports-IsPortList :
    (wan lan w : Text) (out : List Text)
    → normalize_router_ports wan lan ≡ ports w out
    → (valid_router_port w ≡ true) × (is_wireless_port w ≡ false) × IsPortList w out
unfolding normalize_router_ports
normalize_router_ports-IsPortList wan lan w out h =
    let chosen = or_default (to_lower (trim_space wan)) in
    elim (Bool-cases (not (valid_router_port chosen) || is_wireless_port chosen)) [
      | inl bad ↦ absurd (ground arith)
      | inr fine ↦
          let (same, listed) =
            collect_ports-IsPortList chosen w (split b',' lan) [] out tt tt (ground arith) in
          (rw same (ground arith), rw same (ground arith), rw same listed)
    ]
