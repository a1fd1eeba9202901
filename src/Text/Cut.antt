-- ===== src/Text/Cut.antt =====
-- What the services use of Go's `strings` for cutting texts: prefixes, suffixes, splitting, joining.
use zyranet_api.Base.{
  ℕ, zero, suc, ◌≡◌, Bool, true, false, ◌&&◌, ◌||◌, Option, none, some, List, [], ◌∷◌, ◌++◌, leb,
  ◌==◌, if◌then◌else◌, arith, Option-cases, inl, inr,
}
use zyranet_api.Text.{Text, text_eq, to_lower, text_eq→eq}

abbrev pub take : ℕ → Text → Text
take zero s = []
take (suc n) [] = []
take (suc n) (c ∷ s) = c ∷ take n s

abbrev pub drop : ℕ → Text → Text
drop zero s = s
drop (suc n) [] = []
drop (suc n) (c ∷ s) = drop n s

-- `strings.HasPrefix(s, prefix)`.
abbrev pub has_prefix : Text → Text → Bool
has_prefix s [] = true
has_prefix [] (p ∷ ps) = false
has_prefix (c ∷ s) (p ∷ ps) = c == p && has_prefix s ps

abbrev pub contains_byte : ℕ → Text → Bool
contains_byte b [] = false
contains_byte b (c ∷ s) = c == b || contains_byte b s

-- `strings.Contains(s, part)`.
abbrev pub contains : Text → Text → Bool
contains [] part = has_prefix [] part
contains (c ∷ s) part = has_prefix (c ∷ s) part || contains s part

-- `s` without a suffix, if it has it.
unfoldable pub cut_suffix : Text → Text → Option Text
cut_suffix [] suffix = if text_eq [] suffix then some [] else none
cut_suffix (c ∷ s) suffix =
    if text_eq (c ∷ s) suffix
    then some []
    else elim (cut_suffix s suffix) [ none ↦ none | some rest ↦ some (c ∷ rest) ]

-- The text in front of the last `b` and the text behind it.
unfoldable pub cut_last : ℕ → Text → Option (Text × Text)
cut_last b [] = none
cut_last b (c ∷ s) = elim (cut_last b s) [
  | some (front, back) ↦ some (c ∷ front, back)
  | none ↦ if c == b then some ([], s) else none
]

abbrev pub in_front : ℕ → List Text → List Text
in_front c [] = (c ∷ []) ∷ []
in_front c (part ∷ parts) = (c ∷ part) ∷ parts

-- `strings.Split` at a single byte.
unfoldable pub split : ℕ → Text → List Text
split b [] = [] ∷ []
split b (c ∷ s) = if c == b then [] ∷ split b s else in_front c (split b s)

unfoldable pub join : Text → List Text → Text
join sep [] = []
join sep (part ∷ []) = part
join sep (part ∷ next ∷ parts) = part ++ sep ++ join sep (next ∷ parts)

abbrev pub has_text : Text → List Text → Bool
has_text t [] = false
has_text t (x ∷ xs) = text_eq x t || has_text t xs

abbrev pub keep : (ℕ → Bool) → Text → Text
keep p [] = []
keep p (c ∷ s) = if p c then c ∷ keep p s else keep p s

abbrev pub is_digit : ℕ → Bool
is_digit c = leb b'0' c && leb c b'9'

-- `strings.EqualFold`, on ASCII.
abbrev pub equal_fold : Text → Text → Bool
equal_fold s t = text_eq (to_lower s) (to_lower t)

-- A suffix that was cut off stands behind the rest.
pub cut_suffix-append :
    (s suffix rest : Text) → cut_suffix s suffix ≡ some rest → s ≡ rest ++ suffix
unfolding cut_suffix
cut_suffix-append [] suffix rest h = ground (arith, text_eq→eq [] suffix)
cut_suffix-append (c ∷ s) suffix rest h = elim (Option-cases (cut_suffix s suffix)) [
  | inl missing ↦ ground (arith, text_eq→eq (c ∷ s) suffix)
  | inr (front, found) ↦
      ground (arith, text_eq→eq (c ∷ s) suffix, cut_suffix-append s suffix front found)
]
