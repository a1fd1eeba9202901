-- ===== src/Utils/Subdomain/Laws.antt =====
-- What a subdomain is, and that normal forms are stable (utils/subdomain.go).
use zyranet_api.Base.{
  ℕ, ◌≤◌, ◌≡◌, ◌≢◌, refl, ap, ◌∙◌, sym, true, false, [], ◌∷◌, ◌++◌, arith, length, Bool-cases,
  Option-cases, inl, inr, ◌⊎◌,
}
use zyranet_api.Text.{
  Text, bytes, text_eq, text_eq→eq, trim_space, trim_left, trim_right, to_lower, is_space,
  lower_byte,
}
use zyranet_api.Text.Cut.{contains, cut_suffix, cut_suffix-append}
use zyranet_api.Utils.Subdomain.{
  is_label_byte, every, matches_label, is_reserved_label, Normalized, label, invalid, check_label,
  normalize_subdomain, subdomain_in, subdomain_from_host, clean_host, clean_base, if_own,
}

lower_label : (c : ℕ) → is_label_byte c ≡ true → lower_byte c ≡ c
lower_label c h = ground arith

not_space : (c : ℕ) → is_label_byte c ≡ true → is_space c ≡ false
not_space c h = ground arith

to_lower_label : (s : Text) → every is_label_byte s ≡ true → to_lower s ≡ s
unfolding to_lower
to_lower_label [] h = refl
to_lower_label (c ∷ s) h = ground (arith, lower_label c, to_lower_label s)

trim_left_label : (s : Text) → every is_label_byte s ≡ true → trim_left s ≡ s
unfolding trim_left
trim_left_label [] h = refl
trim_left_label (c ∷ s) h = ground (arith, not_space c)

trim_right_label : (s : Text) → every is_label_byte s ≡ true → trim_right s ≡ s
unfolding trim_right
trim_right_label [] h = refl
trim_right_label (c ∷ []) h = ground (arith, not_space c)
trim_right_label (c ∷ d ∷ s) h = rw (trim_right_label (d ∷ s) (ground arith))

-- What a label that passed the checks is.
pub record IsLabel (s : Text) : Type 0 where
  pub shape : matches_label s ≡ true
  pub long : 3 ≤ length s
  pub short : length s ≤ 40
  pub single : contains s (bytes "--") ≡ false
  pub free : is_reserved_label s ≡ false

check_label_steps :
    (s t : Text) → check_label s ≡ label t → (t ≡ s) × ((text_eq s [] ≡ true) ⊎ IsLabel s)
unfolding check_label
check_label_steps s t h = elim (Bool-cases (text_eq s [])) [
  | inl empty ↦ (ground (arith, text_eq→eq s []), inl empty)
  | inr full ↦ (
    ground arith,
    inr (record {
      shape = ground arith;
      long = ground arith;
      short = ground arith;
      single = ground arith;
      free = ground arith;
    }),
  )
]

check_label_again : (s t : Text) → check_label s ≡ label t → check_label t ≡ label t
check_label_again s t h = let (same, _) = check_label_steps s t h in rw same (rw same at h)

label_bytes : (s : Text) → (text_eq s [] ≡ true) ⊎ IsLabel s → every is_label_byte s ≡ true
unfolding matches_label
label_bytes [] h = refl
label_bytes (c ∷ s) (inl e) = absurd (ground (arith, text_eq→eq (c ∷ s) [] e))
label_bytes (c ∷ s) (inr l) = ground (arith, l.shape)

normal_form : (s : Text) → every is_label_byte s ≡ true → to_lower (trim_space s) ≡ s
unfolding trim_space
normal_form s h =
    ap (λ t. to_lower (trim_right t)) (trim_left_label s h)
    ∙ ap to_lower (trim_right_label s h)
    ∙ to_lower_label s h

-- A label that normalising gives is its own normal form: normalising it again changes nothing.
pub normalize_subdomain_idempotent :
    (raw s : Text) → normalize_subdomain raw ≡ label s → normalize_subdomain s ≡ label s
unfolding normalize_subdomain
normalize_subdomain_idempotent raw s h =
    let given = to_lower (trim_space raw) in
    let (same, ok) = check_label_steps given s h in
    let stable = normal_form s (rw same (label_bytes given ok)) in
    rw stable (check_label_again given s h)

if_own_steps : (n : Normalized) (l s : Text) → if_own n l ≡ s → s ≢ [] → (n ≡ label s) × (s ≡ l)
if_own_steps (invalid e) l s h ne = absurd (ne (sym h))
if_own_steps (label t) l s h ne = ground (arith, text_eq→eq t l)

-- A subdomain that is found in a host stands alone in front of the base domain, once the port and a
-- final dot are taken off, and is a label by the rules: 3 to 40 letters, digits and hyphens, with no
-- hyphen at an end and no two in a row, and not reserved.
pub subdomain_from_host-IsLabel :
    (host base s : Text)
    → subdomain_from_host host base ≡ s
    → s ≢ []
    → (clean_host host ≡ s ++ b'.' ∷ clean_base base) × IsLabel s
unfolding subdomain_from_host subdomain_in normalize_subdomain
subdomain_from_host-IsLabel host base s h ne =
    elim (Option-cases (cut_suffix (clean_host host) (b'.' ∷ clean_base base))) [
      | inl foreign ↦ absurd (ground arith)
      | inr (l, found) ↦
          let own : if_own (check_label (to_lower (trim_space l))) l ≡ s = ground arith in
          let (checked, this) = if_own_steps (check_label (to_lower (trim_space l))) l s own ne in
          let whole = cut_suffix-append (clean_host host) (b'.' ∷ clean_base base) l found in
          let (given, ok) = check_label_steps (to_lower (trim_space l)) s checked in
          (rw this whole, valid s (rw given ok) ne)
    ]
  where
    valid : (t : Text) → (text_eq t [] ≡ true) ⊎ IsLabel t → t ≢ [] → IsLabel t
    valid t (inl e) n = absurd (n (text_eq→eq t [] e))
    valid t (inr l) n = l
