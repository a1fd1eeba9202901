-- ===== src/Utils/Subdomain.antt =====
-- Subdomains of ISPs (utils/subdomain.go).
pub mod Laws
use zyranet_api.Base.{
  ℕ, Bool, true, false, not, ◌&&◌, ◌||◌, none, some, List, [], ◌∷◌, leb, ltb, ◌==◌, if◌then◌else◌,
  length,
}
use zyranet_api.Text.{Text, bytes, text_eq, trim_space, to_lower}
use zyranet_api.Text.Cut.{contains, contains_byte, cut_suffix, cut_last, has_text, is_digit}

abbrev pub reserved : List Text
reserved =
    bytes "admin"
    ∷ bytes "api"
    ∷ bytes "app"
    ∷ bytes "portal"
    ∷ bytes "captive"
    ∷ bytes "platform"
    ∷ bytes "www"
    ∷ bytes "mail"
    ∷ bytes "smtp"
    ∷ bytes "imap"
    ∷ bytes "pop"
    ∷ bytes "ftp"
    ∷ bytes "ns1"
    ∷ bytes "ns2"
    ∷ bytes "dashboard"
    ∷ bytes "static"
    ∷ bytes "assets"
    ∷ bytes "cdn"
    ∷ bytes "support"
    ∷ bytes "help"
    ∷ bytes "status"
    ∷ bytes "docs"
    ∷ bytes "blog"
    ∷ bytes "billing"
    ∷ bytes "login"
    ∷ bytes "auth"
    ∷ bytes "staging"
    ∷ bytes "dev"
    ∷ bytes "test"
    ∷ bytes "demo"
    ∷ bytes "root"
    ∷ bytes "zyra"
    ∷ bytes "zyranet"
    ∷ []

-- Shut, since the list is long.
unfoldable pub is_reserved_label : Text → Bool
is_reserved_label s = has_text s reserved

abbrev pub is_alnum : ℕ → Bool
is_alnum c = leb b'a' c && leb c b'z' || is_digit c

abbrev pub is_label_byte : ℕ → Bool
is_label_byte c = is_alnum c || c == b'-'

abbrev pub every : (ℕ → Bool) → Text → Bool
every p [] = true
every p (c ∷ s) = p c && every p s

abbrev pub ends_alnum : Text → Bool
ends_alnum [] = false
ends_alnum (c ∷ []) = is_alnum c
ends_alnum (c ∷ d ∷ s) = ends_alnum (d ∷ s)

abbrev pub starts_alnum : Text → Bool
starts_alnum [] = false
starts_alnum (c ∷ s) = is_alnum c

-- `^[a-z0-9]([a-z0-9-]*[a-z0-9])?$`
unfoldable pub matches_label : Text → Bool
matches_label s = starts_alnum s && ends_alnum s && every is_label_byte s

pub data SubdomainError : Type 0 where
  bad_length bad_characters double_hyphen is_reserved : SubdomainError

pub data Normalized : Type 0 where
  label : Text → Normalized
  invalid : SubdomainError → Normalized

-- The checks after trimming and lower-casing.
unfoldable pub check_label : Text → Normalized
check_label s =
    if text_eq s []
    then label []
    else if ltb (length s) 3 || ltb 40 (length s)
    then invalid bad_length
    else if not (matches_label s)
    then invalid bad_characters
    else if contains s (bytes "--")
    then invalid double_hyphen
    else if is_reserved_label s
    then invalid is_reserved
    else label s

unfoldable pub normalize_subdomain : Text → Normalized
normalize_subdomain raw = check_label (to_lower (trim_space raw))

unfoldable pub is_reserved_subdomain : Text → Bool
is_reserved_subdomain s = is_reserved_label (to_lower (trim_space s))

-- A host without its port; a colon inside brackets belongs to an IPv6 address.
unfoldable pub without_port : Text → Text
unfolding cut_last
without_port host = elim (cut_last b':' host) [
  | none ↦ host
  | some (front, back) ↦ if contains_byte b']' (b':' ∷ back) then host else front
]

-- `strings.TrimSuffix`.
abbrev pub trim_suffix : Text → Text → Text
trim_suffix s suffix = elim (cut_suffix s suffix) [ none ↦ s | some rest ↦ rest ]

unfoldable pub trim_dots_left : Text → Text
trim_dots_left [] = []
trim_dots_left (c ∷ s) = if c == b'.' then trim_dots_left s else c ∷ s

abbrev pub unless_dots : ℕ → Text → Text
unless_dots c [] = if c == b'.' then [] else c ∷ []
unless_dots c (d ∷ s) = c ∷ d ∷ s

unfoldable pub trim_dots_right : Text → Text
trim_dots_right [] = []
trim_dots_right (c ∷ s) = unless_dots c (trim_dots_right s)

unfoldable pub clean_host : Text → Text
unfolding without_port cut_suffix
clean_host host = trim_suffix (without_port (to_lower (trim_space host))) (bytes ".")

unfoldable pub clean_base : Text → Text
unfolding trim_dots_left trim_dots_right
clean_base base = to_lower (trim_dots_right (trim_dots_left (trim_space base)))

-- A label is taken only if it is its own normal form.
abbrev pub if_own : Normalized → Text → Text
if_own (invalid e) l = []
if_own (label s) l = if text_eq s l then s else []

unfoldable pub subdomain_in : Text → Text → Text
subdomain_in host base = if text_eq base [] then [] else elim (cut_suffix host (b'.' ∷ base)) [
  | none ↦ []
  | some l ↦ if contains_byte b'.' l then [] else if_own (normalize_subdomain l) l
]

unfoldable pub subdomain_from_host : Text → Text → Text
subdomain_from_host host base = subdomain_in (clean_host host) (clean_base base)
