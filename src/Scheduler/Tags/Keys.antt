-- ===== src/Scheduler/Tags/Keys.antt =====
-- The context key that the scheduler makes from a tag is one that `spawn_agent` accepts.
use smallpieclaw.Prelude.{
  ℕ, zero, suc, ◌≤◌, ◌==◌, nat_eq, ◌≡◌, refl, ap, sym, ◌∙◌, subst, true, false, [], ◌∷◌, map, arith,
  length, take, all, length-take, Bool-cases, inl, inr,
}
use smallpieclaw.Scheduler.Tags.{
  Text, is_empty, separator, collapse, strip_left, strip_right, is_key_char, replace_unsafe,
  normalize_tag, normalize_context_key, is_context_char, is_context_key,
}

-- All characters are of [a-z0-9_].
abbrev IsSafe : Text → Type 0
IsSafe text = all is_key_char text ≡ true

replace_unsafe-IsSafe : (text : Text) → IsSafe (replace_unsafe text)
unfolding replace_unsafe all
replace_unsafe-IsSafe [] = refl
replace_unsafe-IsSafe (c ∷ text) = ground (arith, replace_unsafe-IsSafe text)

map-separator-IsSafe : (text : Text) → IsSafe text → IsSafe (map separator text)
unfolding all
map-separator-IsSafe [] h = refl
map-separator-IsSafe (c ∷ text) h = ground (arith, map-separator-IsSafe text)

collapse-IsSafe : (text : Text) → IsSafe text → IsSafe (collapse text)
unfolding collapse all
collapse-IsSafe [] h = refl
collapse-IsSafe (c ∷ text) h = ground (arith, collapse-IsSafe text)

strip_left-IsSafe : (text : Text) → IsSafe text → IsSafe (strip_left text)
unfolding strip_left all
strip_left-IsSafe [] h = refl
strip_left-IsSafe (c ∷ text) h = ground (arith, strip_left-IsSafe text)

strip_right-IsSafe : (text : Text) → IsSafe text → IsSafe (strip_right text)
unfolding strip_right all
strip_right-IsSafe [] h = refl
strip_right-IsSafe (c ∷ text) h = ground (arith, strip_right-IsSafe text)

take-IsSafe : (n : ℕ) (text : Text) → IsSafe text → IsSafe (take n text)
unfolding all
take-IsSafe zero text h = refl
take-IsSafe (suc n) [] h = refl
take-IsSafe (suc n) (c ∷ text) h = ground (arith, take-IsSafe n text)

-- The first character is no underscore.
abbrev HeadOk : Text → Type 0
HeadOk [] = Unit
HeadOk (c ∷ text) = (c == b'_') ≡ false

strip_left-HeadOk : (text : Text) → HeadOk (strip_left text)
unfolding strip_left
strip_left-HeadOk [] = tt
strip_left-HeadOk (c ∷ text) = elim (Bool-cases (c == b'_')) [
  | inl under ↦ rw (under, strip_left) (strip_left-HeadOk text)
  | inr other ↦ rw (other, strip_left) other
]

strip_right-HeadOk : (text : Text) → HeadOk text → HeadOk (strip_right text)
unfolding strip_right
strip_right-HeadOk [] h = tt
strip_right-HeadOk (c ∷ text) h = rw (h, strip_right) h

take-HeadOk : (n : ℕ) (text : Text) → HeadOk text → HeadOk (take n text)
take-HeadOk zero text h = tt
take-HeadOk (suc n) [] h = tt
take-HeadOk (suc n) (c ∷ text) h = h

length-strip_right_le : (text : Text) → length (strip_right text) ≤ length text
unfolding strip_right
length-strip_right_le [] = omega arith
length-strip_right_le (c ∷ text) = ground (arith, length-strip_right_le text)

context_chars : (text : Text) → IsSafe text → all is_context_char text ≡ true
unfolding all
context_chars [] h = refl
context_chars (c ∷ text) h = ground (arith, context_chars text)

key-accepted :
    (text : Text)
    → IsSafe text
    → HeadOk text
    → is_empty text ≡ false
    → length text ≤ 128
    → is_context_key text ≡ true
unfolding is_context_key all
key-accepted [] safe head given short = absurd (ground (arith, given))
key-accepted (c ∷ text) safe head given short = ground (arith, context_chars text)

-- For every tag the context key is one that `spawn_agent` accepts: 1 to 128 characters of letters,
-- digits, underscores, dots and dashes, of which the first is a letter or a digit. The hypotheses
-- say that stripping and lowering change no text of lower-case letters, digits and underscores.
pub normalize_context_key-accepted :
    (strip lower : Text → Text) (tag : Text)
    → ((text : Text) → all is_key_char text ≡ true → strip text ≡ text)
    → ((text : Text) → all is_key_char text ≡ true → lower text ≡ text)
    → is_context_key (normalize_context_key strip lower tag) ≡ true
unfolding normalize_context_key normalize_tag is_context_key
normalize_context_key-accepted strip lower tag strips lowers =
    let raw = replace_unsafe (map separator (lower (strip tag))) in
    let raw_safe = replace_unsafe-IsSafe (map separator (lower (strip tag))) in
    let same : lower (strip raw) ≡ raw = ap lower (strips raw raw_safe) ∙ lowers raw raw_safe in
    let marked = map separator (lower (strip raw)) in
    let safe : IsSafe marked =
      subst (λ t. IsSafe (map separator t)) (sym same) (map-separator-IsSafe raw raw_safe) in
    let left = strip_left (collapse marked) in
    let left_safe = strip_left-IsSafe (collapse marked) (collapse-IsSafe marked safe) in
    let key = strip_right left in
    let short = strip_right (take 128 key) in
    let short_safe =
      strip_right-IsSafe (take 128 key) (take-IsSafe 128 key (strip_right-IsSafe left left_safe)) in
    let short_head : HeadOk short =
      strip_right-HeadOk (take 128 key)
        (take-HeadOk 128 key (strip_right-HeadOk left (strip_left-HeadOk (collapse marked)))) in
    let size : length short ≤ 128 =
      omega (arith, length-strip_right_le (take 128 key), length-take 128 key) in
    elim (Bool-cases (is_empty short)) [
      | inl empty ↦ rw (empty, normalize_context_key) refl
      | inr given ↦
          rw (given, normalize_context_key) (key-accepted short short_safe short_head given size)
    ]
