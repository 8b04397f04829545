-- ===== src/Ownership/Protection/RoundTrip.antt =====
-- A protective tag is read back as it was made.
use mathlib.Core.List.{reverse, reverse-append, reverse-reverse, append_assoc}
use glitch_topstep.Ownership.ScaleIn.{tag_prefix, strip_prefix, is_wildcard}
use glitch_topstep.Ownership.Protection.{
  Leg, stop_leg, target_leg, digits_back, value_back, decimal, protection_tag_base, suffix_of,
  generation_mark, leg_tag, is_digit, take_digits, with_generation, split_generation, parsed,
  parse_id, parse_leg, parse_protective_tag,
}
use glitch_topstep.Prelude.{
  length, is_empty, every, ℤ, pos, ℕ, zero, suc, ◌+◌, ◌/◌, ◌≤◌, ◌<◌, ◌≡◌, refl, ap, ◌∙◌, ◌⊎◌, inl,
  inr, true, false, none, some, List, [], ◌∷◌, ◌++◌, take_all, arith,
}

digits_back-digits : (rounds n : ℕ) → every is_digit (digits_back rounds n) ≡ true
unfolding digits_back
digits_back-digits zero n = refl
digits_back-digits (suc rounds) n = ground (arith, digits_back-digits rounds (n / 10))

value-digits_back : (rounds n : ℕ) → n < rounds → value_back (digits_back rounds n) ≡ n
unfolding digits_back value_back
value-digits_back zero n h = absurd (omega arith)
value-digits_back (suc rounds) n h = ground (arith, value-digits_back rounds (n / 10))

take_digits-append :
    (ds text : List ℕ)
    → every is_digit ds ≡ true
    → take_digits text ≡ ([], text)
    → take_digits (ds ++ text) ≡ (ds, text)
unfolding take_digits
take_digits-append [] text all h = h
take_digits-append (d ∷ ds) text all h = ground (arith, take_digits-append ds text)

digits_back-nonempty : (rounds n : ℕ) → 0 < rounds → is_empty (digits_back rounds n) ≡ false
unfolding digits_back
digits_back-nonempty zero n h = absurd (omega arith)
digits_back-nonempty (suc rounds) n h = refl

empty-of_reverse : (xs ys : List ℕ) → reverse ys ≡ xs → is_empty xs ≡ false → is_empty ys ≡ false
empty-of_reverse xs [] e h = cc
empty-of_reverse xs (y ∷ ys) e h = refl

is_empty-reverse : (xs : List ℕ) → is_empty xs ≡ false → is_empty (reverse xs) ≡ false
is_empty-reverse xs h = empty-of_reverse xs (reverse xs) (reverse-reverse xs) h

with_generation-some :
    (back digits : List ℕ)
    → is_empty back ≡ false
    → with_generation (some back) digits ≡ some (back, value_back digits)
with_generation-some [] digits h = cc h
with_generation-some (c ∷ cs) digits h = refl

mark-digits :
    (back : List ℕ) (n : ℕ)
    → take_digits (digits_back (n + 1) n ++ (b'r' ∷ b'-' ∷ back))
      ≡ (digits_back (n + 1) n, b'r' ∷ b'-' ∷ back)
unfolding take_digits
mark-digits back n =
    take_digits-append (digits_back (n + 1) n) (b'r' ∷ b'-' ∷ back) (digits_back-digits (n + 1) n)
      refl

-- The mark of a later generation, from the end.
split-marked :
    (back : List ℕ) (n : ℕ)
    → is_empty back ≡ false
    → split_generation (digits_back (n + 1) n ++ (b'r' ∷ b'-' ∷ back)) ≡ some (back, n)
unfolding split_generation strip_prefix
split-marked back n h =
    rw
      (
        mark-digits back n,
        digits_back-nonempty (n + 1) n (omega arith),
        with_generation-some back (digits_back (n + 1) n) h,
        value-digits_back (n + 1) n (omega arith),
      )
      refl

-- A text that a tag can name an intent by: not too long to be cut, and of one line.
abbrev pub IsNameable : List ℕ → Type 0
IsNameable id = (length id ≤ 52) × (is_wildcard (some id) ≡ true)

tag_base-all : (id : List ℕ) → length id ≤ 52 → protection_tag_base id ≡ tag_prefix ++ id
unfolding protection_tag_base
tag_base-all id h = rw (take_all 60 id (omega arith)) (ground arith)

-- What is left of a tag when the prefix and the suffix are gone, from the end.
abbrev pub marked_back : List ℕ → ℤ → List ℕ
marked_back id generation = reverse (generation_mark generation) ++ reverse id

reverse-three : (a b c : List ℕ) → reverse (a ++ (b ++ reverse c)) ≡ c ++ (reverse b ++ reverse a)
reverse-three a b c =
    reverse-append a (b ++ reverse c)
    ∙ ap (λ t. t ++ reverse a) (reverse-append b (reverse c))
    ∙ append_assoc (reverse (reverse c)) (reverse b) (reverse a)
    ∙ ap (λ t. t ++ (reverse b ++ reverse a)) (reverse-reverse c)

parse_leg-suffix :
    (leg : Leg) (text : List ℕ) → parse_leg (suffix_of leg ++ text) ≡ parse_id leg text
unfolding strip_prefix
parse_leg-suffix stop_leg text = refl
parse_leg-suffix target_leg text = refl

parse-prefix :
    (body : List ℕ) → parse_protective_tag (tag_prefix ++ body) ≡ parse_leg (reverse body)
unfolding parse_protective_tag strip_prefix
parse-prefix body = refl

parse-leg_tag :
    (id : List ℕ) (generation : ℤ) (leg : Leg)
    → length id ≤ 52
    → parse_protective_tag (leg_tag id generation leg) ≡ parse_id leg (marked_back id generation)
parse-leg_tag id generation leg h =
    ap
      (λ base.
        parse_protective_tag (base ++ (generation_mark generation ++ reverse (suffix_of leg))))
      (tag_base-all id h)
    ∙ parse-prefix (id ++ (generation_mark generation ++ reverse (suffix_of leg)))
    ∙ ap parse_leg (reverse-three id (generation_mark generation) (suffix_of leg))
    ∙ parse_leg-suffix leg (marked_back id generation)

generation_mark-later : (n : ℕ) → 1 ≤ n → generation_mark (pos n) ≡ b'-' ∷ b'r' ∷ decimal n
generation_mark-later n h = ground arith

marked_back-later :
    (id : List ℕ) (n : ℕ)
    → 1 ≤ n
    → marked_back id (pos n) ≡ digits_back (n + 1) n ++ (b'r' ∷ b'-' ∷ reverse id)
unfolding decimal
marked_back-later id n h =
    let digits = digits_back (n + 1) n in
    ap (λ t. reverse t ++ reverse id) (generation_mark-later n h)
    ∙ ap (λ t. t ++ reverse id) (reverse-append (b'-' ∷ b'r' ∷ []) (reverse digits))
    ∙ append_assoc (reverse (reverse digits)) (b'r' ∷ b'-' ∷ []) (reverse id)
    ∙ ap (λ t. t ++ (b'r' ∷ b'-' ∷ reverse id)) (reverse-reverse digits)

nameable-nonempty : (id : List ℕ) → is_wildcard (some id) ≡ true → is_empty id ≡ false
nameable-nonempty [] h = cc h
nameable-nonempty (c ∷ cs) h = refl

parsed-reverse :
    (id : List ℕ) (n : ℕ) (leg : Leg)
    → is_wildcard (some id) ≡ true
    → parsed (reverse id) n leg ≡ some (record { intent_id = id; leg = leg; generation = n })
parsed-reverse id n leg h = rw (reverse-reverse id, h) refl

parse_id-marked :
    (leg : Leg) (text back : List ℕ) (n : ℕ)
    → split_generation text ≡ some (back, n)
    → parse_id leg text ≡ parsed back n leg
unfolding parse_id
parse_id-marked leg text back n h = rw (parse_id, h) refl

parse_id-unmarked :
    (leg : Leg) (text : List ℕ)
    → split_generation text ≡ none
    → parse_id leg text ≡ parsed text 0 leg
unfolding parse_id
parse_id-unmarked leg text h = rw (parse_id, h) refl

parse_later :
    (id : List ℕ) (n : ℕ) (leg : Leg)
    → IsNameable id
    → 1 ≤ n
    → parse_protective_tag (leg_tag id (pos n) leg)
      ≡ some (record { intent_id = id; leg = leg; generation = n })
parse_later id n leg (short, wild) h =
    parse-leg_tag id (pos n) leg short
    ∙ ap (parse_id leg) (marked_back-later id n h)
    ∙ parse_id-marked leg _ (reverse id) n
        (split-marked (reverse id) n (is_empty-reverse id (nameable-nonempty id wild)))
    ∙ parsed-reverse id n leg wild

parse_first :
    (id : List ℕ) (leg : Leg)
    → IsNameable id
    → split_generation (reverse id) ≡ none
    → parse_protective_tag (leg_tag id (pos 0) leg)
      ≡ some (record { intent_id = id; leg = leg; generation = 0 })
parse_first id leg (short, wild) h =
    parse-leg_tag id (pos 0) leg short
    ∙ parse_id-unmarked leg (reverse id) h
    ∙ parsed-reverse id 0 leg wild

-- A protective tag is read back as the intent, the leg and the generation that it was made of. The
-- intent's id must be at most 52 characters of one line, since a longer one is cut, and for the first
-- generation, which has no mark, the id may not itself end in one.
pub parse-protection_tags :
    (id : List ℕ) (n : ℕ) (leg : Leg)
    → IsNameable id
    → (1 ≤ n) ⊎ (split_generation (reverse id) ≡ none)
    → parse_protective_tag (leg_tag id (pos n) leg)
      ≡ some (record { intent_id = id; leg = leg; generation = n })
parse-protection_tags id zero leg name (inl h) = absurd (omega arith)
parse-protection_tags id zero leg name (inr h) = parse_first id leg name h
parse-protection_tags id (suc n) leg name _ = parse_later id (suc n) leg name (omega arith)
