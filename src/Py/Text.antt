-- ===== src/Py/Text.antt =====
-- str.strip, str.casefold and the tests for a part of a text; str.split and " ".join, over the characters that str.isspace accepts.
use Prim.Native.Char.{Char, code}
use Prim.Native.String.{len, slice, find, char_at, ◌++◌}
use veri_doc.Prelude.{
  ℕ, String, Bool, true, false, ◌&&◌, ◌||◌, ◌≡◌, refl, ◌==◌, nat_eq, leb, if◌then◌else◌, List, [],
  ◌∷◌, ◌-◌,
}

unfoldable pub is_space : ℕ → Bool
is_space c =
    leb 9 c && leb c 13
    || leb 28 c && leb c 32
    || nat_eq c 0x85
    || nat_eq c 0xa0
    || nat_eq c 0x1680
    || leb 0x2000 c && leb c 0x200a
    || nat_eq c 0x2028
    || nat_eq c 0x2029
    || nat_eq c 0x202f
    || nat_eq c 0x205f
    || nat_eq c 0x3000

lstrip : String → String
lstrip String.[] = String.[]
lstrip (String.◌∷◌ c s) = if is_space (code c) then lstrip s else String.◌∷◌ c s

abbrev keep_char : Bool → String → String
keep_char true r = String.[]
keep_char false r = r

rstrip : String → String
rstrip String.[] = String.[]
rstrip (String.◌∷◌ c s) =
    let r = rstrip s in keep_char (is_space (code c) && r == "") (String.◌∷◌ c r)

-- s.strip()
unfoldable pub strip : String → String
unfolding is_space lstrip rstrip
strip s = rstrip (lstrip s)

-- not s.strip()
unfoldable pub is_blank : String → Bool
unfolding strip
is_blank s = strip s == ""

strip_sides : strip "  a b " ≡ "a b"
unfolding strip
strip_sides = refl

-- text.endswith(tail)
unfoldable pub ends_with : String → String → Bool
ends_with text tail =
    leb (len tail) (len text) && slice text (len text - len tail) (len text) == tail

-- part in text
unfoldable pub has_part : String → String → Bool
has_part text part = leb (find text part) (len text)

abbrev pub between : ℕ → ℕ → ℕ → Bool
between low high c = leb low c && leb c high

abbrev lower : Char → Char
lower c = if between 65 90 (code c) then char_at "abcdefghijklmnopqrstuvwxyz" (code c - 65) else c

-- What str.casefold makes of the characters that fold to a text with an ASCII letter in it.
abbrev folds : List (ℕ × String)
folds =
    (0xdf, "ss")
    ∷ (0x130, "i̇")
    ∷ (0x149, "ʼn")
    ∷ (0x17f, "s")
    ∷ (0x1f0, "ǰ")
    ∷ (0x1e96, "ẖ")
    ∷ (0x1e97, "ẗ")
    ∷ (0x1e98, "ẘ")
    ∷ (0x1e99, "ẙ")
    ∷ (0x1e9a, "aʾ")
    ∷ (0x1e9e, "ss")
    ∷ (0x212a, "k")
    ∷ (0xfb00, "ff")
    ∷ (0xfb01, "fi")
    ∷ (0xfb02, "fl")
    ∷ (0xfb03, "ffi")
    ∷ (0xfb04, "ffl")
    ∷ (0xfb05, "st")
    ∷ (0xfb06, "st")
    ∷ []

fold_by : List (ℕ × String) → Char → String
fold_by [] c = String.◌∷◌ (lower c) String.[]
fold_by ((n, t) ∷ rest) c = if nat_eq n (code c) then t else fold_by rest c

-- text.casefold(), as far as the ASCII characters of its result go: any other character that folds
-- is kept, since no test of the code tells two characters outside ASCII apart.
unfoldable pub casefold : String → String
unfolding fold_by
casefold String.[] = String.[]
casefold (String.◌∷◌ c s) = fold_by folds c ++ casefold s

-- text.lower(), as far as the ASCII characters of its result go.
unfoldable pub lower_text : String → String
unfolding fold_by
lower_text String.[] = String.[]
lower_text (String.◌∷◌ c s) = fold_by ((0x130, "i̇") ∷ (0x212a, "k") ∷ []) c ++ lower_text s

folded_mark : casefold "loẗ" ≡ "loẗ"
unfolding casefold fold_by
folded_mark = refl

ends : ends_with "pdf_ocr" "_ocr" ≡ true
unfolding ends_with
ends = refl

inside : has_part "my_ocr_engine" "_ocr_" ≡ true
unfolding has_part
inside = refl

not_inside : has_part "engine" "_ocr_" ≡ false
unfolding has_part
not_inside = refl

folded : casefold "LOT Straße" ≡ "lot strasse"
unfolding casefold
folded = refl

squeeze : Bool → String → String
squeeze run String.[] = String.[]
squeeze run (String.◌∷◌ c s) =
    let more = squeeze true s in
    let kept = String.◌∷◌ c (squeeze false s) in
    if is_space (code c) then if run then more else " " ++ more else kept

-- " ".join(text.split())
unfoldable pub normalize_space : String → String
unfolding squeeze
normalize_space s = squeeze false (strip s)

spaced : normalize_space "  a  b c " ≡ "a b c"
unfolding normalize_space strip is_space
spaced = refl
