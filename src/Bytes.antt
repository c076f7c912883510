-- ===== src/Bytes.antt =====
-- Byte slices as lists of numbers, and the operations of the `bytes` package that the sources use.
use accountable.Prelude.{
  ℕ, zero, suc, ◌≤◌, String, Bool, true, false, ◌&&◌, ◌≡◌, ◌↔◌, refl, ap, List, [], ◌∷◌, ◌++◌,
  length, eqb, arith, if◌then◌else◌,
}
use Prim.Native.Char.{code}

abbrev pub Bytes : Type 0
Bytes = List ℕ

-- bytes.Equal
unfoldable pub equal : Bytes → Bytes → Bool
equal [] [] = true
equal [] (b ∷ bs) = false
equal (a ∷ xs) [] = false
equal (a ∷ xs) (b ∷ bs) = eqb a b && equal xs bs

pub equal_iff : (xs bs : Bytes) → (equal xs bs ≡ true) ↔ (xs ≡ bs)
unfolding equal
equal_iff [] [] = (λ h. refl, λ h. refl)
equal_iff [] (b ∷ bs) = (λ h. cc, λ h. cc)
equal_iff (a ∷ xs) [] = (λ h. cc, λ h. cc)
equal_iff (a ∷ xs) (b ∷ bs) = ground (arith, equal_iff xs bs)

-- The bytes of an ASCII text.
unfoldable pub ascii : String → Bytes
ascii String.[] = []
ascii (String.◌∷◌ c s) = code c ∷ ascii s

-- slice[:n] and slice[n:], where n is at most the length
unfoldable pub take : ℕ → Bytes → Bytes
take zero bs = []
take (suc n) [] = []
take (suc n) (b ∷ bs) = b ∷ take n bs

-- Bytes of which one more than `n` are asked for and at most `n` are got were all got.
pub take_of_short : (n : ℕ) (bs : Bytes) → length (take (suc n) bs) ≤ n → take (suc n) bs ≡ bs
unfolding take
take_of_short n [] h = refl
take_of_short zero (b ∷ bs) h = absurd (ground arith)
take_of_short (suc n) (b ∷ bs) h = ap (◌∷◌ b) (take_of_short n bs (ground arith))

unfoldable pub drop : ℕ → Bytes → Bytes
drop zero bs = bs
drop (suc n) [] = []
drop (suc n) (b ∷ bs) = drop n bs

pub take-append : (xs bs : Bytes) → take (length xs) (xs ++ bs) ≡ xs
unfolding take
take-append [] bs = refl
take-append (a ∷ xs) bs = ap (◌∷◌ a) (take-append xs bs)

pub drop-append : (xs bs : Bytes) → drop (length xs) (xs ++ bs) ≡ bs
unfolding drop
drop-append [] bs = refl
drop-append (a ∷ xs) bs = drop-append xs bs

-- bytes.TrimSuffix of a single byte
unfoldable pub trim_byte : ℕ → Bytes → Bytes
trim_byte last [] = []
trim_byte last (b ∷ []) = if eqb b last then [] else b ∷ []
trim_byte last (b ∷ c ∷ bs) = b ∷ trim_byte last (c ∷ bs)

pub length-trim_byte : (last : ℕ) (bs : Bytes) → length (trim_byte last bs) ≤ length bs
unfolding trim_byte
length-trim_byte last [] = omega arith
length-trim_byte last (b ∷ []) = ground arith
length-trim_byte last (b ∷ c ∷ bs) = omega (arith, length-trim_byte last (c ∷ bs))
