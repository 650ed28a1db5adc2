-- ===== src/RawEngine/Spelling.antt =====
-- Which spellings of a worker and of a pay element are one key (app/raw_engine/cleaning.py), told
-- without trimming and without the regular expression.
use pmvp.Prelude.{
  ◌≡◌, refl, ap, ◌∙◌, Bool, true, false, not, ◌&&◌, [], ◌∷◌, map, arith, if◌then◌else◌, ℕ,
}
use pmvp.Text.{Text, is_space, is_empty, lstrip, rstrip, strip}
use pmvp.RawEngine.Cleaning.{
  upper_char, without_spaces, normalise_emp_id, collapse, normalise_element,
}

-- The characters that are not white space, in upper case.
abbrev pub letters : Text → Text
letters [] = []
letters (c ∷ s) = if is_space c then letters s else upper_char c ∷ letters s

abbrev pub starts_with_space : Text → Bool
starts_with_space [] = false
starts_with_space (c ∷ s) = is_space c

-- The words, with one space between two of them.
abbrev pub joined_words : Text → Text
joined_words [] = []
joined_words (c ∷ s) =
    let rest = joined_words s in
    if is_space c
    then rest
    else (if starts_with_space s && not (is_empty rest) then c ∷ 32 ∷ rest else c ∷ rest)

-- The words in upper case.
abbrev pub element_key : Text → Text
element_key label = map upper_char (joined_words label)

is_space-upper_char : (c : ℕ) → is_space (upper_char c) ≡ is_space c
is_space-upper_char c = ground arith

without_spaces-upper : (s : Text) → without_spaces (map upper_char s) ≡ letters s
without_spaces-upper [] = refl
without_spaces-upper (c ∷ s) = rw (is_space-upper_char c) (ground (arith, without_spaces-upper s))

letters-lstrip : (s : Text) → letters (lstrip s) ≡ letters s
unfolding lstrip
letters-lstrip [] = refl
letters-lstrip (c ∷ s) = ground (arith, letters-lstrip s)

empty-letters : (s : Text) → is_empty s ≡ true → letters s ≡ []
empty-letters [] h = refl
empty-letters (c ∷ s) h = cc

letters-rstrip : (s : Text) → letters (rstrip s) ≡ letters s
unfolding rstrip
letters-rstrip [] = refl
letters-rstrip (c ∷ s) = ground (arith, letters-rstrip s, empty-letters (rstrip s))

pub normalise_emp_id-letters : (s : Text) → normalise_emp_id s ≡ letters s
unfolding normalise_emp_id strip
normalise_emp_id-letters s =
    without_spaces-upper (rstrip (lstrip s)) ∙ letters-rstrip (lstrip s) ∙ letters-lstrip s

is_empty-rstrip : (s : Text) → is_empty (rstrip s) ≡ is_empty (joined_words s)
unfolding rstrip
is_empty-rstrip [] = refl
is_empty-rstrip (c ∷ s) = ground (arith, is_empty-rstrip s)

empty-nil : (s : Text) → is_empty s ≡ true → s ≡ []
empty-nil [] h = refl
empty-nil (c ∷ s) h = cc

collapse-rstrip :
    (s : Text)
    → (collapse true (rstrip s) ≡ joined_words s)
      × (collapse false (rstrip s) ≡ (
          if starts_with_space s && not (is_empty (joined_words s))
          then 32 ∷ joined_words s
          else joined_words s))
unfolding rstrip
collapse-rstrip [] = (refl, refl)
collapse-rstrip (c ∷ s) =
    let (after, fresh) = collapse-rstrip s in
    let same = is_empty-rstrip s in
    let nil = empty-nil (rstrip s) in
    let none_left = empty-nil (joined_words s) in (ground arith, ground arith)

joined_words-lstrip : (s : Text) → joined_words (lstrip s) ≡ joined_words s
unfolding lstrip
joined_words-lstrip [] = refl
joined_words-lstrip (c ∷ s) = ground (arith, joined_words-lstrip s)

lstrip-starts : (s : Text) → starts_with_space (lstrip s) ≡ false
unfolding lstrip
lstrip-starts [] = refl
lstrip-starts (c ∷ s) = ground (arith, lstrip-starts s)

pub normalise_element-key : (s : Text) → normalise_element s ≡ element_key s
unfolding normalise_element strip
normalise_element-key s =
    let trimmed = (collapse-rstrip (lstrip s)).1 in
    let start = lstrip-starts s in ap (map upper_char) (trimmed ∙ rw start (joined_words-lstrip s))
