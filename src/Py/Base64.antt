-- ===== src/Py/Base64.antt =====
-- base64.b64encode and base64.b64decode(..., validate=True), which services/api/job_queue.py calls.
use Prim.Native.Char.{Char, code, char}
use veri_doc.Prelude.{
  ℕ, zero, suc, ◌+◌, ◌*◌, ◌/◌, ◌%◌, String, ◌≡◌, refl, List, [], ◌∷◌, Option, none, some, nat_eq,
  if◌then◌else◌,
}

abbrev alphabet : String
alphabet = "ABCDEFGHIJKLMNOPQRSTUVWXYZabcdefghijklmnopqrstuvwxyz0123456789+/"

-- The letter of a place below 64.
letter_of : String → ℕ → Char
letter_of String.[] _ = char 61 tt
letter_of (String.◌∷◌ c s) zero = c
letter_of (String.◌∷◌ c s) (suc n) = letter_of s n

-- The place of a letter.
place_in : String → Char → ℕ → Option ℕ
place_in String.[] c n = none
place_in (String.◌∷◌ d s) c n =
    let later = place_in s c (suc n) in if nat_eq (code d) (code c) then some n else later

letter : ℕ → String → String
unfolding letter_of
letter n rest = String.◌∷◌ (letter_of alphabet (n % 64)) rest

unfoldable pub b64encode : List ℕ → String
unfolding letter
b64encode [] = String.[]
b64encode (a ∷ []) = letter (a / 4) (letter (a * 16) "==")
b64encode (a ∷ b ∷ []) = letter (a / 4) (letter (a * 16 + b / 16) (letter (b * 4) "="))
b64encode (a ∷ b ∷ c ∷ rest) =
    letter (a / 4) (letter (a * 16 + b / 16) (letter (b * 4 + c / 64) (letter c (b64encode rest))))

abbrev one_byte : Option ℕ → Option ℕ → Option (List ℕ)
one_byte (some a) (some b) = some ((a * 4 + b / 16) % 256 ∷ [])
one_byte _ _ = none

abbrev two_bytes : Option ℕ → Option ℕ → Option ℕ → Option (List ℕ)
two_bytes (some a) (some b) (some c) = some ((a * 4 + b / 16) % 256 ∷ (b * 16 + c / 4) % 256 ∷ [])
two_bytes _ _ _ = none

abbrev more_bytes : Option ℕ → Option ℕ → Option ℕ → Option ℕ → Option (List ℕ) → Option (List ℕ)
more_bytes (some a) (some b) (some c) (some d) (some rest) =
    some ((a * 4 + b / 16) % 256 ∷ (b * 16 + c / 4) % 256 ∷ (c * 64 + d) % 256 ∷ rest)
more_bytes _ _ _ _ _ = none

abbrev last_bytes : Char → Char → Char → Char → Option (List ℕ)
last_bytes a b c d =
    if nat_eq (code d) 61
    then if nat_eq (code c) 61
      then one_byte (place_in alphabet a 0) (place_in alphabet b 0)
      else two_bytes (place_in alphabet a 0) (place_in alphabet b 0) (place_in alphabet c 0)
    else more_bytes (place_in alphabet a 0) (place_in alphabet b 0) (place_in alphabet c 0)
        (place_in alphabet d 0) (some [])

-- `none` where it raises. Padding stands at the end only.
unfoldable pub b64decode : String → Option (List ℕ)
unfolding place_in
b64decode String.[] = some []
b64decode (String.◌∷◌ a (String.◌∷◌ b (String.◌∷◌ c (String.◌∷◌ d String.[])))) = last_bytes a b c d
b64decode (String.◌∷◌ a (String.◌∷◌ b (String.◌∷◌ c (String.◌∷◌ d (String.◌∷◌ e s))))) =
    let rest = b64decode (String.◌∷◌ e s) in
    more_bytes (place_in alphabet a 0) (place_in alphabet b 0) (place_in alphabet c 0)
      (place_in alphabet d 0) rest
b64decode _ = none

encoded : b64encode (104 ∷ 101 ∷ 108 ∷ 108 ∷ 111 ∷ []) ≡ "aGVsbG8="
unfolding b64encode letter_of
encoded = refl

decoded : b64decode "aGVsbG8=" ≡ some (104 ∷ 101 ∷ 108 ∷ 108 ∷ 111 ∷ [])
unfolding b64decode place_in
decoded = refl
