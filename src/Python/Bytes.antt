-- ===== src/Python/Bytes.antt =====
-- Byte strings as lists of numbers, and `struct.pack(">I", n)`.
use linker.Prelude.{
  ℕ, zero, suc, ◌+◌, ◌*◌, ◌/◌, ◌%◌, ◌^◌, ◌<◌, ◌≡◌, refl, List, [], ◌∷◌, ◌++◌, arith, ltb, length,
  take, drop, All, if◌then◌else◌,
}
use linker.Python.Exc.{Result, ok, err, struct_error}

abbrev pub IsByte : ℕ → Type 0
IsByte b = b < 256

abbrev pub AreBytes : List ℕ → Type 0
AreBytes = All IsByte

-- Four bytes, the highest first.
unfoldable pub be32 : ℕ → List ℕ
be32 n = (n / 2 ^ 24 % 256) ∷ (n / 2 ^ 16 % 256) ∷ (n / 2 ^ 8 % 256) ∷ (n % 256) ∷ []

-- `struct.pack(">I", n)`
unfoldable pub pack_u32 : ℕ → Result (List ℕ)
pack_u32 n =
    if ltb n (2 ^ 32)
    then ok (be32 n)
    else err (struct_error "'I' format requires 0 <= number <= 4294967295")

-- `struct.unpack(">I", bytes)[0]`, of the first four bytes; a list that is shorter is no argument of it here.
unfoldable pub u32 : List ℕ → ℕ
u32 (a ∷ b ∷ c ∷ d ∷ bs) = a * 2 ^ 24 + b * 2 ^ 16 + c * 2 ^ 8 + d
u32 bs = 0

pub length-be32 : (n : ℕ) → length (be32 n) ≡ 4
unfolding be32
length-be32 n = refl

pub u32-be32 : (n : ℕ) (rest : List ℕ) → n < 2 ^ 32 → u32 (be32 n ++ rest) ≡ n
unfolding u32 be32
u32-be32 n rest h = omega arith

cons_four :
    {a b c d a' b' c' d' : ℕ}
    → a ≡ a'
    → b ≡ b'
    → c ≡ c'
    → d ≡ d'
    → ◌≡◌ {A = List ℕ} (a ∷ b ∷ c ∷ d ∷ []) (a' ∷ b' ∷ c' ∷ d' ∷ [])
cons_four p q r s = cc

-- Four bytes are the packed form of the number that they unpack to.
pub be32-u32 : (xs rest : List ℕ) → length xs ≡ 4 → AreBytes xs → be32 (u32 (xs ++ rest)) ≡ xs
unfolding u32 be32
be32-u32 [] rest l h = absurd (omega arith)
be32-u32 (a ∷ []) rest l h = absurd (omega arith)
be32-u32 (a ∷ b ∷ []) rest l h = absurd (omega arith)
be32-u32 (a ∷ b ∷ c ∷ []) rest l h = absurd (omega arith)
be32-u32 (a ∷ b ∷ c ∷ d ∷ []) rest l h =
    cons_four (omega arith) (omega arith) (omega arith) (omega arith)
be32-u32 (a ∷ b ∷ c ∷ d ∷ e ∷ xs) rest l h = absurd (omega arith)

pub u32-lt : (xs rest : List ℕ) → length xs ≡ 4 → AreBytes xs → u32 (xs ++ rest) < 2 ^ 32
unfolding u32
u32-lt [] rest l h = absurd (omega arith)
u32-lt (a ∷ []) rest l h = absurd (omega arith)
u32-lt (a ∷ b ∷ []) rest l h = absurd (omega arith)
u32-lt (a ∷ b ∷ c ∷ []) rest l h = absurd (omega arith)
u32-lt (a ∷ b ∷ c ∷ d ∷ []) rest l h = omega arith
u32-lt (a ∷ b ∷ c ∷ d ∷ e ∷ xs) rest l h = absurd (omega arith)

pub AreBytes-take : (n : ℕ) (xs : List ℕ) → AreBytes xs → AreBytes (take n xs)
AreBytes-take zero xs h = tt
AreBytes-take (suc n) [] h = tt
AreBytes-take (suc n) (x ∷ xs) (hx, h) = (hx, AreBytes-take n xs h)

pub AreBytes-drop : (n : ℕ) (xs : List ℕ) → AreBytes xs → AreBytes (drop n xs)
AreBytes-drop zero xs h = h
AreBytes-drop (suc n) [] h = tt
AreBytes-drop (suc n) (x ∷ xs) (hx, h) = AreBytes-drop n xs h

-- `struct.pack` of a number that fits.
pub pack_u32-fits : (n : ℕ) → n < 2 ^ 32 → pack_u32 n ≡ ok (be32 n)
unfolding pack_u32
pack_u32-fits n h = ground arith

pub pack_u32-eq_ok : (n : ℕ) {bs : List ℕ} → pack_u32 n ≡ ok bs → (n < 2 ^ 32) × (bs ≡ be32 n)
unfolding pack_u32
pack_u32-eq_ok n h = ground arith

-- `u32` reads the first four bytes.
pub u32-append : (xs rest : List ℕ) → length xs ≡ 4 → u32 (xs ++ rest) ≡ u32 xs
unfolding u32
u32-append [] rest l = absurd (omega arith)
u32-append (a ∷ []) rest l = absurd (omega arith)
u32-append (a ∷ b ∷ []) rest l = absurd (omega arith)
u32-append (a ∷ b ∷ c ∷ []) rest l = absurd (omega arith)
u32-append (a ∷ b ∷ c ∷ d ∷ xs) rest l = refl
