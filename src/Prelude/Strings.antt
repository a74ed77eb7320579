-- ===== src/Prelude/Strings.antt =====
-- Texts as JavaScript has them, sequences of 16-bit code units, with the methods of `String` that
-- the program calls. Letters outside ASCII have no case here.
use Prim.Native.Char.{code}
use Prim.Native.Nat.{ℕ, ◌+◌, ◌-◌}
use Prim.Native.String.{String}
use mathlib.Core.Path.{◌≡◌, refl}
use mathlib.Core.Bool.{Bool, true, false, ◌&&◌, ◌||◌}
use mathlib.Core.Option.{Option, none, some}
use mathlib.Core.List.{List, [], ◌∷◌, map}
use native.Mathlib.Omega.{arith}
use hoyhel.Prelude.Tests.{leb, ◌==◌, if◌then◌else◌}

abbrev pub Text : Type 0
Text = List ℕ

-- A literal of the source.
unfoldable pub text : String → Text
text String.[] = []
text (String.◌∷◌ c s) = code c ∷ text s

unfoldable pub text_eq : Text → Text → Bool
text_eq [] [] = true
text_eq (a ∷ s) (b ∷ t) = a == b && text_eq s t
text_eq _ _ = false

pub text_eq_refl : (s : Text) → text_eq s s ≡ true
unfolding text_eq
text_eq_refl [] = refl
text_eq_refl (a ∷ s) = ground (arith, text_eq_refl s)

abbrev pub is_empty : Text → Bool
is_empty [] = true
is_empty _ = false

-- The white space and line ends that `trim` removes.
unfoldable pub is_space : ℕ → Bool
is_space c =
    (leb 9 c && leb c 13)
    || (c == 32)
    || (c == 160)
    || (c == 0x1680)
    || (leb 0x2000 c && leb c 0x200a)
    || (c == 0x2028)
    || (c == 0x2029)
    || (c == 0x202f)
    || (c == 0x205f)
    || (c == 0x3000)
    || (c == 0xfeff)

unfoldable pub trim_start : Text → Text
trim_start [] = []
trim_start (c ∷ s) = if is_space c then trim_start s else c ∷ s

-- A space that only spaces follow is dropped.
abbrev pub keep_unless_last : ℕ → Text → Text
keep_unless_last c [] = if is_space c then [] else c ∷ []
keep_unless_last c (d ∷ s) = c ∷ d ∷ s

unfoldable pub trim_end : Text → Text
trim_end [] = []
trim_end (c ∷ s) = keep_unless_last c (trim_end s)

unfoldable pub trim : Text → Text
unfolding trim_start trim_end is_space
trim s = trim_end (trim_start s)

unfoldable pub upper_unit : ℕ → ℕ
upper_unit c = if leb b'a' c && leb c b'z' then c - 32 else c

unfoldable pub lower_unit : ℕ → ℕ
lower_unit c = if leb b'A' c && leb c b'Z' then c + 32 else c

unfoldable pub to_upper_case : Text → Text
unfolding upper_unit
to_upper_case = map upper_unit

unfoldable pub to_lower_case : Text → Text
unfolding lower_unit
to_lower_case = map lower_unit

-- `a || b` on a text that may be missing: an empty text counts as missing.
unfoldable pub or_text : Option Text → Text → Text
or_text none d = d
or_text (some []) d = d
or_text (some (c ∷ s)) d = c ∷ s

-- `a || null`.
unfoldable pub or_null : Option Text → Option Text
or_null (some []) = none
or_null o = o

unfoldable pub starts_with : Text → Text → Bool
starts_with [] t = true
starts_with (a ∷ s) [] = false
starts_with (a ∷ s) (b ∷ t) = a == b && starts_with s t

abbrev contains : Text → Text → Bool
contains s [] = starts_with s []
contains s (b ∷ t) = starts_with s (b ∷ t) || contains s t

-- `{ contains: s, mode: 'insensitive' }` on the text `t`
unfoldable pub contains_insensitive : Text → Text → Bool
contains_insensitive s t = contains (to_lower_case s) (to_lower_case t)

-- `split(/\s+/)` of a trimmed text, as its first part and the others joined by one space.
unfoldable pub first_part : Text → Text
first_part [] = []
first_part (c ∷ s) = if is_space c then [] else c ∷ first_part s

abbrev after_first : Text → Text
after_first [] = []
after_first (c ∷ s) = if is_space c then trim_start s else after_first s

abbrev opens_with_space : Text → Bool
opens_with_space [] = false
opens_with_space (c ∷ s) = is_space c

abbrev collapse : Text → Text
collapse [] = []
collapse (c ∷ s) =
    let rest = collapse s in
    if is_space c then (if opens_with_space s then rest else 32 ∷ rest) else c ∷ rest

unfoldable pub other_parts : Text → Text
other_parts s = collapse (after_first s)

unfoldable pub has_space : Text → Bool
has_space [] = false
has_space (c ∷ s) = is_space c || has_space s
