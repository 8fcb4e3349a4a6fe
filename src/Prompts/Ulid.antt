-- ===== src/Prompts/Ulid.antt =====
-- prompt_registry.py: `_generate_ulid`. The milliseconds and the number of the random bytes are
-- arguments; `to_bytes(6)` raises for milliseconds beyond 48 bits.
use smallpieclaw.Prelude.{
  ℕ, zero, suc, ◌+◌, ◌*◌, ◌^◌, ◌/◌, ◌%◌, ◌<◌, nat_eq, ◌≡◌, refl, ap, sym, ◌∙◌, inl, inr, Bool, true,
  false, ◌&&◌, Option, none, some, List, [], ◌∷◌, ◌++◌, arith, if◌then◌else◌, ltb, length,
  Bool-cases,
}
use native.Mathlib.Nat.{pow-zero, pow-succ'}
use smallpieclaw.Checkpoints.{text_le}

-- _CROCKFORD_ALPHABET
abbrev crockford_alphabet : List ℕ
crockford_alphabet =
    48 ∷ 49 ∷ 50 ∷ 51 ∷ 52 ∷ 53 ∷ 54 ∷ 55 ∷ 56 ∷ 57 ∷ 65 ∷ 66 ∷ 67 ∷ 68 ∷ 69 ∷ 70 ∷ 71 ∷ 72 ∷ 74
    ∷ 75 ∷ 77 ∷ 78 ∷ 80 ∷ 81 ∷ 82 ∷ 83 ∷ 84 ∷ 86 ∷ 87 ∷ 88 ∷ 89 ∷ 90 ∷ []

-- An index that is in range.
unfoldable pub letter_at : List ℕ → ℕ → ℕ
letter_at [] i = 0
letter_at (c ∷ letters) zero = c
letter_at (c ∷ letters) (suc i) = letter_at letters i

-- The loop over the bits, with the letters so far in reversed order.
unfoldable pub encode : (rounds : ℕ) → (value : ℕ) → List ℕ → List ℕ
unfolding letter_at
encode zero value chars = chars
encode (suc n) value chars =
    encode n (value / 32) (letter_at crockford_alphabet (value % 32) ∷ chars)

unfoldable pub generate_ulid : (ms_timestamp randomness : ℕ) → Option (List ℕ)
unfolding encode
generate_ulid ms randomness =
    if ltb ms (2 ^ 48) then some (encode 26 (ms * 2 ^ 80 + randomness) []) else none

-- The letters ascend, from above the one given.
abbrev ascending : ℕ → List ℕ → Bool
ascending c [] = true
ascending c (d ∷ letters) = ltb c d && ascending d letters

letter_at-above :
    (c : ℕ) (letters : List ℕ) (i : ℕ)
    → ascending c letters ≡ true
    → i < length letters
    → c < letter_at letters i
unfolding letter_at
letter_at-above c [] i up inside = absurd (omega (arith, inside))
letter_at-above c (d ∷ letters) zero up inside = ground (arith, up)
letter_at-above c (d ∷ letters) (suc i) up inside =
    ground (arith, up, letter_at-above d letters i (ground (arith, up)) (omega (arith, inside)))

letter_at-lt :
    (c : ℕ) (letters : List ℕ) (i j : ℕ)
    → ascending c letters ≡ true
    → i < j
    → j < length letters
    → letter_at letters i < letter_at letters j
unfolding letter_at
letter_at-lt c [] i j up lt inside = absurd (omega (arith, inside))
letter_at-lt c (d ∷ letters) zero zero up lt inside = absurd (omega (arith, lt))
letter_at-lt c (d ∷ letters) (suc i) zero up lt inside = absurd (omega (arith, lt))
letter_at-lt c (d ∷ letters) zero (suc j) up lt inside =
    letter_at-above d letters j (ground (arith, up)) (omega (arith, inside))
letter_at-lt c (d ∷ letters) (suc i) (suc j) up lt inside =
    letter_at-lt d letters i j (ground (arith, up)) (omega (arith, lt)) (omega (arith, inside))

encode-append :
    (n v : ℕ) (chars more : List ℕ) → encode n v (chars ++ more) ≡ encode n v chars ++ more
unfolding encode
encode-append zero v chars more = refl
encode-append (suc n) v chars more =
    encode-append n (v / 32) (letter_at crockford_alphabet (v % 32) ∷ chars) more

length-encode : (n v : ℕ) (chars : List ℕ) → length (encode n v chars) ≡ n + length chars
unfolding encode
length-encode zero v chars = omega arith
length-encode (suc n) v chars =
    length-encode n (v / 32) (letter_at crockford_alphabet (v % 32) ∷ chars) ∙ omega arith

text_le-append :
    (a b more others : List ℕ)
    → length a ≡ length b
    → text_le a b ≡ false
    → text_le (a ++ more) (b ++ others) ≡ false
unfolding text_le
text_le-append [] b more others same h = absurd (ground (arith, h))
text_le-append (x ∷ a) [] more others same h = absurd (omega (arith, same))
text_le-append (x ∷ a) (y ∷ b) more others same h =
    ground (arith, h, text_le-append a b more others (omega (arith, same)))

text_le-same : (a : List ℕ) (x y : ℕ) → x < y → text_le (a ++ y ∷ []) (a ++ x ∷ []) ≡ false
unfolding text_le
text_le-same [] x y lt = ground (arith, lt)
text_le-same (z ∷ a) x y lt = ground (arith, text_le-same a x y lt)

encode-suc :
    (n v : ℕ)
    → encode (suc n) v [] ≡ encode n (v / 32) [] ++ letter_at crockford_alphabet (v % 32) ∷ []
unfolding encode
encode-suc n v = encode-append n (v / 32) [] (letter_at crockford_alphabet (v % 32) ∷ [])

-- A larger number has the later text.
encode-newer : (n v w : ℕ) → v < w → w < 32 ^ n → text_le (encode n w []) (encode n v []) ≡ false
encode-newer zero v w lt small = absurd (ground (arith, lt, small, pow-zero 32))
encode-newer (suc n) v w lt small =
    let scaled : w / 32 < 32 ^ n = omega (arith, small, pow-succ' 32 n) in
    rw (encode-suc n v, encode-suc n w)
      elim (Bool-cases (ltb (v / 32) (w / 32))) [
        | inl high ↦
            text_le-append (encode n (w / 32) []) (encode n (v / 32) [])
              (letter_at crockford_alphabet (w % 32) ∷ [])
              (letter_at crockford_alphabet (v % 32) ∷ [])
              (length-encode n (w / 32) [] ∙ sym (length-encode n (v / 32) []))
              (encode-newer n (v / 32) (w / 32) (ground (arith, high)) scaled)
        | inr low ↦
            let same : v / 32 ≡ w / 32 = ground (arith, low, lt) in
            let below : v % 32 < w % 32 = omega (arith, lt, same) in
            rw (same) (
              text_le-same (encode n (w / 32) []) (letter_at crockford_alphabet (v % 32))
                (letter_at crockford_alphabet (w % 32))
                (letter_at-lt 0 crockford_alphabet (v % 32) (w % 32) refl below (omega arith)))
      ]

-- What an identifier is.
text_of :
    (ms r : ℕ) (a : List ℕ)
    → generate_ulid ms r ≡ some a
    → (ms < 2 ^ 48) × (encode 26 (ms * 2 ^ 80 + r) [] ≡ a)
unfolding generate_ulid
text_of ms r a h = elim (Bool-cases (ltb ms (2 ^ 48))) [
  | inl fits ↦ (ground (arith, fits), ground (arith, h, fits))
  | inr large ↦ absurd (ground (arith, h, large))
]

-- With 80 random bits each, an identifier has 26 letters, and one of a later millisecond comes
-- later in the order of texts, whatever the random bits.
pub generate_ulid-newer :
    (ms later r s : ℕ) (a b : List ℕ)
    → r < 2 ^ 80
    → s < 2 ^ 80
    → ms < later
    → generate_ulid ms r ≡ some a
    → generate_ulid later s ≡ some b
    → (length a ≡ 26) × (text_le b a ≡ false)
generate_ulid-newer ms later r s a b random others lt first second =
    let (small, old) = text_of ms r a first in
    let (fits, new) = text_of later s b second in
    (
      sym (ap length old) ∙ length-encode 26 (ms * 2 ^ 80 + r) [],
      rw (sym old, sym new)
          (encode-newer 26 (ms * 2 ^ 80 + r) (later * 2 ^ 80 + s) (omega (arith, random, lt))
            (omega (arith, others, fits))),
    )
