-- ===== src/Text.antt =====
-- Go strings as lists of bytes, with what the services use of `strings`, `strconv` and `fmt`.
-- Case folding and trimming are those of ASCII; other bytes stay as they are.
pub mod Cut
use Prim.Native.Char.{code}
use zyranet_api.Base.{
  ℕ, zero, suc, ◌+◌, ◌-◌, ◌/◌, ◌%◌, ◌≡◌, refl, Bool, true, false, ◌&&◌, ◌||◌, List, [], ◌∷◌, ◌++◌,
  map, String, arith, ltb, leb, ◌==◌, if◌then◌else◌,
}
use zyranet_api.Int.{ℤ, pos, negsuc}

abbrev pub Text : Type 0
Text = List ℕ

-- The bytes of an ASCII literal.
abbrev pub bytes : String → Text
bytes String.[] = []
bytes (String.◌∷◌ c s) = code c ∷ bytes s

unfoldable pub text_eq : Text → Text → Bool
text_eq [] [] = true
text_eq (a ∷ s) (b ∷ t) = a == b && text_eq s t
text_eq _ _ = false

pub text_eq→eq : (s t : Text) → text_eq s t ≡ true → s ≡ t
unfolding text_eq
text_eq→eq [] [] h = refl
text_eq→eq (a ∷ s) (b ∷ t) h = ground (arith, text_eq→eq s t)
text_eq→eq [] (b ∷ t) h = ground arith
text_eq→eq (a ∷ s) [] h = ground arith

pub text_eq_refl : (s : Text) → text_eq s s ≡ true
unfolding text_eq
text_eq_refl [] = refl
text_eq_refl (a ∷ s) = ground (arith, text_eq_refl s)

abbrev pub is_space : ℕ → Bool
is_space c = c == 32 || leb 9 c && leb c 13

unfoldable pub trim_left : Text → Text
trim_left [] = []
trim_left (c ∷ s) = if is_space c then trim_left s else c ∷ s

-- A text without the spaces at its end.
unfoldable pub trim_right : Text → Text
trim_right [] = []
trim_right (c ∷ s) = keep_unless_blank c (trim_right s)
  where
    keep_unless_blank : ℕ → Text → Text
    keep_unless_blank d [] = if is_space d then [] else d ∷ []
    keep_unless_blank d (e ∷ t) = d ∷ e ∷ t

unfoldable pub trim_space : Text → Text
unfolding trim_left trim_right
trim_space s = trim_right (trim_left s)

abbrev pub lower_byte : ℕ → ℕ
lower_byte c = if leb b'A' c && leb c b'Z' then c + 32 else c

abbrev pub upper_byte : ℕ → ℕ
upper_byte c = if leb b'a' c && leb c b'z' then c - 32 else c

unfoldable pub to_lower : Text → Text
to_lower s = map lower_byte s

unfoldable pub to_upper : Text → Text
to_upper s = map upper_byte s

-- Decimal digits in front of `acc`; the fuel falls with the number, so `suc n` is enough for `n`.
unfoldable pub digits_onto : ℕ → ℕ → Text → Text
digits_onto zero n acc = acc
digits_onto (suc fuel) n acc =
    let rest = digits_onto fuel (n / 10) ((48 + n % 10) ∷ acc) in
    if ltb n 10 then (48 + n % 10) ∷ acc else rest

unfoldable pub decimal : ℕ → Text
unfolding digits_onto
decimal n = digits_onto (suc n) n []

unfoldable pub decimal_ℤ : ℤ → Text
unfolding decimal
decimal_ℤ (pos n) = decimal n
decimal_ℤ (negsuc n) = b'-' ∷ decimal (suc n)

-- An operand of `fmt.Sprint`.
pub data Part : Type 0 where
  txt : Text → Part
  num : ℤ → Part
  nums : List ℕ → Part

joined : List ℕ → Text
joined [] = []
joined (n ∷ []) = decimal n
joined (n ∷ m ∷ ns) = decimal n ++ 32 ∷ joined (m ∷ ns)

-- One operand in its default format; a slice is written `[1 2 3]`.
unfoldable pub show : Part → Text
unfolding joined decimal_ℤ
show (txt s) = s
show (num z) = decimal_ℤ z
show (nums ns) = b'[' ∷ joined ns ++ b']' ∷ []

-- `Sprint` puts a space between two operands when neither is a string.
unfoldable pub gap : Part → Part → Text
gap (num _) (num _) = 32 ∷ []
gap (num _) (nums _) = 32 ∷ []
gap (nums _) (num _) = 32 ∷ []
gap (nums _) (nums _) = 32 ∷ []
gap _ _ = []

unfoldable pub sprint : List Part → Text
unfolding show gap
sprint [] = []
sprint (p ∷ []) = show p
sprint (p ∷ q ∷ ps) = show p ++ gap p q ++ sprint (q ∷ ps)

sprint_test :
    sprint
      (txt (bytes "return") ∷ num (pos 7) ∷ nums (3 ∷ 12 ∷ []) ∷ num (pos 0) ∷ txt (bytes "x") ∷ [])
    ≡ bytes "return7 [3 12] 0x"
unfolding sprint
sprint_test = refl

trim_test : trim_space (bytes "  a b ") ≡ bytes "a b"
unfolding trim_space
trim_test = refl
