-- ===== src/RawEngine/Cleaning.antt =====
-- app/raw_engine/cleaning.py and `normalise_emp_id` of app/raw_import.py: the keys of a worker and
-- of a pay element, and the hours of a cell. Letters and white space are those of ASCII; hours are
-- hundredths of an hour.
use pmvp.Prelude.{ℕ, ◌-◌, Bool, true, false, ◌&&◌, leb, [], ◌∷◌, map, if◌then◌else◌}
use pmvp.Prelude.Int.{ℤ, pos_part}
use pmvp.Text.{Text, is_space, strip}

abbrev pub upper_char : ℕ → ℕ
upper_char c = if leb 97 c && leb c 122 then c - 32 else c

abbrev pub without_spaces : Text → Text
without_spaces [] = []
without_spaces (c ∷ s) = if is_space c then without_spaces s else c ∷ without_spaces s

unfoldable pub normalise_emp_id : Text → Text
normalise_emp_id raw = without_spaces (map upper_char (strip raw))

-- `re.sub(r"\s+", " ", s)`; the flag tells that the character before was white space.
abbrev pub collapse : Bool → Text → Text
collapse after_space [] = []
collapse after_space (c ∷ s) =
    if is_space c
    then (if after_space then collapse true s else 32 ∷ collapse true s)
    else c ∷ collapse false s

unfoldable pub normalise_element : Text → Text
normalise_element label = map upper_char (collapse false (strip label))

-- What `float` makes of a cell: nothing, not a number, or a number.
pub data Cell : Type 0 where
  no_float nan : Cell
  number : ℤ → Cell

unfoldable pub coerce_hours : Cell → ℕ
coerce_hours no_float = 0
coerce_hours nan = 0
coerce_hours (number hours) = pos_part hours
