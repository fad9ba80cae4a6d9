-- ===== src/Prelude/Text.antt =====
-- Python's `str`: prefixes, substrings, surrounding white space.
use Prim.Native.Char.{Char, code}
use Prim.Native.Nat.{ℕ, zero, suc, ◌-◌, ◌+◌, ◌*◌}
use mathlib.Core.Option.{Option, none, some}
use Prim.Native.String.{String, [], ◌∷◌}
use mathlib.Core.Path.{◌≡◌, refl}
use mathlib.Core.Bool.{Bool, true, false, ◌&&◌, ◌||◌}
use native.Mathlib.Omega.{arith}
use text.Mathlib.Text.{◌==◌ as str_eq}
use text.Mathlib.TextEquality.{eq_iff}
use cloudbase.Prelude.Tests.{◌==◌, leb, if◌then◌else◌}

-- s.startswith(p)
abbrev pub starts_with : String → String → Bool
starts_with s [] = true
starts_with [] (c ∷ p) = false
starts_with (d ∷ s) (c ∷ p) = code d == code c && starts_with s p

-- p in s
abbrev pub contains : String → String → Bool
contains [] p = starts_with [] p
contains (c ∷ s) p = starts_with (c ∷ s) p || contains s p

abbrev pub text_length : String → ℕ
text_length [] = 0
text_length (c ∷ s) = suc (text_length s)

abbrev pub between : ℕ → ℕ → ℕ → Bool
between lo hi c = leb lo c && leb c hi

-- str.isspace() of one character
pub is_space : ℕ → Bool
is_space c =
    between 9 13 c
    || between 28 32 c
    || c == 133
    || c == 160
    || c == 5760
    || between 8192 8202 c
    || between 8232 8233 c
    || c == 8239
    || c == 8287
    || c == 12288

pub lstrip : String → String
lstrip [] = []
lstrip (c ∷ s) = let rest = lstrip s in if is_space (code c) then rest else c ∷ s

pub rstrip : String → String
rstrip [] = []
rstrip (c ∷ s) = let rest = rstrip s in if str_eq rest "" && is_space (code c) then [] else c ∷ rest

-- s.strip()
unfoldable pub strip : String → String
unfolding lstrip rstrip is_space
strip s = rstrip (lstrip s)

-- Two prefixes of one text are prefixes of one another.
pub starts_with_comparable :
    (s p q : String)
    → starts_with s p ≡ true
    → starts_with s q ≡ true
    → (starts_with p q || starts_with q p) ≡ true
starts_with_comparable s [] [] h k = refl
starts_with_comparable s [] (c ∷ q) h k = refl
starts_with_comparable s (c ∷ p) [] h k = refl
starts_with_comparable [] (c ∷ p) (d ∷ q) h k = cc
starts_with_comparable (e ∷ s) (c ∷ p) (d ∷ q) h k = ground (arith, starts_with_comparable s p q)

-- A text with one prefix has no other that is not comparable to it.
pub starts_with_apart :
    (s p q : String)
    → (starts_with p q || starts_with q p) ≡ false
    → starts_with s p ≡ true
    → starts_with s q ≡ false
starts_with_apart s p q d h = ground (arith, starts_with_comparable s p q)

-- A text with a prefix is no text without it.
pub eq_apart :
    (s p q : String) → starts_with q p ≡ false → starts_with s p ≡ true → str_eq q s ≡ false
eq_apart s p q d h = ground (arith, eq_iff q s)

-- A text with a prefix has the prefixes of that.
pub starts_with_shorter :
    (s p q : String) → starts_with p q ≡ true → starts_with s p ≡ true → starts_with s q ≡ true
starts_with_shorter s p [] d h = refl
starts_with_shorter s [] (c ∷ q) d h = cc
starts_with_shorter [] (e ∷ p) (c ∷ q) d h = cc
starts_with_shorter (b ∷ s) (e ∷ p) (c ∷ q) d h = ground (arith, starts_with_shorter s p q)

pub starts_with_of_eq :
    (s p q : String) → starts_with p q ≡ true → str_eq p s ≡ true → starts_with s q ≡ true
starts_with_of_eq s p q d h = rw (← (eq_iff p s).0 h) d

nth : String → ℕ → Char → Char
nth [] i d = d
nth (c ∷ s) zero d = c
nth (c ∷ s) (suc i) d = nth s i d

pub lower_char : Char → Char
unfolding nth
lower_char c =
    if between 65 90 (code c) then nth "abcdefghijklmnopqrstuvwxyz" (code c - 65) c else c

-- s.lower() of a text whose letters are ASCII.
unfoldable pub lower : String → String
unfolding lower_char
lower [] = []
lower (c ∷ s) = lower_char c ∷ lower s

-- s.endswith(p)
unfoldable pub ends_with : String → String → Bool
ends_with [] p = str_eq "" p
ends_with (c ∷ s) p = str_eq (c ∷ s) p || ends_with s p

digits_value : ℕ → String → Option ℕ
digits_value value [] = some value
digits_value value (c ∷ s) =
    let rest = digits_value (value * 10 + (code c - 48)) s in
    if between 48 57 (code c) then rest else none

-- int(s) of a text of ASCII digits with white space around them; none for any other text.
unfoldable pub int_of_text : String → Option ℕ
unfolding digits_value strip
int_of_text s = if str_eq (strip s) "" then none else digits_value 0 (strip s)
