-- ===== src/Py/Decimal.antt =====
-- str(n) of a number that is not negative, and that two numbers are not written alike.
use Prim.Native.Char.{Char, code, char}
use veri_doc.Prelude.{
  ℕ, zero, suc, ◌+◌, ◌-◌, ◌*◌, ◌/◌, ◌%◌, ◌<◌, String, ◌≡◌, refl, sym, ap, ◌∙◌, ltb, arith,
  if◌then◌else◌,
}

digit : ℕ → Char
digit zero = char 48 tt
digit (suc zero) = char 49 tt
digit (suc (suc zero)) = char 50 tt
digit (suc (suc (suc zero))) = char 51 tt
digit (suc (suc (suc (suc zero)))) = char 52 tt
digit (suc (suc (suc (suc (suc zero))))) = char 53 tt
digit (suc (suc (suc (suc (suc (suc zero)))))) = char 54 tt
digit (suc (suc (suc (suc (suc (suc (suc zero))))))) = char 55 tt
digit (suc (suc (suc (suc (suc (suc (suc (suc zero)))))))) = char 56 tt
digit _ = char 57 tt

-- The digits of `n` before `rest`; each round takes one, so that `n` rounds and one more do.
write : ℕ → ℕ → String → String
unfolding digit
write zero n rest = rest
write (suc fuel) n rest =
    let before = String.◌∷◌ (digit (n % 10)) rest in
    let more = write fuel (n / 10) before in if ltb n 10 then before else more

-- str(n)
unfoldable pub decimal : ℕ → String
unfolding write
decimal n = write (suc n) n String.[]

read : ℕ → String → ℕ
read n String.[] = n
read n (String.◌∷◌ c s) = read (n * 10 + (code c - 48)) s

code-digit : (d : ℕ) → d < 10 → code (digit d) - 48 ≡ d
unfolding digit
code-digit zero h = refl
code-digit (suc zero) h = refl
code-digit (suc (suc zero)) h = refl
code-digit (suc (suc (suc zero))) h = refl
code-digit (suc (suc (suc (suc zero)))) h = refl
code-digit (suc (suc (suc (suc (suc zero))))) h = refl
code-digit (suc (suc (suc (suc (suc (suc zero)))))) h = refl
code-digit (suc (suc (suc (suc (suc (suc (suc zero))))))) h = refl
code-digit (suc (suc (suc (suc (suc (suc (suc (suc zero)))))))) h = refl
code-digit (suc (suc (suc (suc (suc (suc (suc (suc (suc zero))))))))) h = refl
code-digit (suc (suc (suc (suc (suc (suc (suc (suc (suc (suc n)))))))))) h = absurd (omega arith)

read-write : (fuel n : ℕ) (rest : String) → n < fuel → read 0 (write fuel n rest) ≡ read n rest
unfolding write read
read-write zero n rest h = absurd (omega arith)
read-write (suc fuel) n rest h =
    let d = code-digit (n % 10) (omega arith) in
    let more = read-write fuel (n / 10) (String.◌∷◌ (digit (n % 10)) rest) in ground arith

written : decimal 1205 ≡ "1205"
unfolding decimal
written = refl

-- Two numbers are not written alike.
pub decimal-injective : (m n : ℕ) → decimal m ≡ decimal n → m ≡ n
unfolding decimal read
decimal-injective m n same =
    let a = read-write (suc m) m String.[] (omega arith) in
    let b = read-write (suc n) n String.[] (omega arith) in sym a ∙ ap (read 0) same ∙ b
