-- ===== src/Effort/Numstat.antt =====
-- The text that `git diff --numstat` prints, over code points, as vad/effort/scoring.py reads it.
use verified_agentic_develop.Prelude.{
  zero, suc, Option, none, some, Result, ok, raise, Error, value_error, ◌>>=◌, length, map, ap, ◌≤◌,
  ◌∙◌, ℕ, ◌+◌, ◌*◌, ◌≡◌, refl, Bool, true, false, ◌&&◌, List, [], ◌∷◌, ◌++◌, All, eqb, arith,
  if◌then◌else◌, Bool-cases, inl, inr,
}
use native.Mathlib.Nat.{add-mul, mul_assoc}
use mathlib.Core.List.{append_assoc, append-nil}
use verified_agentic_develop.Prelude.Lines.{
  lines_from, splitlines, parts_from, split_at, is_line_break,
}

-- What `str.isdigit` and `int` know of characters and of numerals: some digits, like a superscript 2, have
-- no decimal value, and `int` refuses a numeral of too many digits.
pub record Digits : Type 0 where
  pub is_digit : ℕ → Bool
  pub decimal : ℕ → Option ℕ
  pub readable : ℕ → Bool

-- the characters `0` to `9`, and the dash
pub record IsAscii (d : Digits) : Type 0 where
  pub digit : (n : ℕ) → n ≤ 9 → d.is_digit (48 + n) ≡ true
  pub value : (n : ℕ) → n ≤ 9 → d.decimal (48 + n) ≡ some n
  pub dash : d.is_digit 45 ≡ false

bad_numeral : Error
bad_numeral = value_error "invalid literal for int() with base 10"

module _ (d : Digits) where
  all_digits : List ℕ → Bool
  all_digits [] = true
  all_digits (c ∷ cs) = d.is_digit c && all_digits cs

  -- `text.isdigit()`
  unfoldable pub isdigit : List ℕ → Bool
  unfolding all_digits
  isdigit [] = false
  isdigit (c ∷ cs) = d.is_digit c && all_digits cs

  unfoldable pub int_from : ℕ → List ℕ → Result ℕ
  unfolding bad_numeral
  int_from n [] = ok n
  int_from n (c ∷ cs) = elim (d.decimal c) [
    | none ↦ raise bad_numeral
    | some v ↦ int_from (n * 10 + v) cs
  ]

  -- `int(field)` if `field.isdigit()`, and nothing otherwise
  unfoldable pub count_of : List ℕ → Result ℕ
  unfolding isdigit int_from bad_numeral
  count_of field =
      if isdigit field
      then (if d.readable (length field) then int_from 0 field else raise bad_numeral)
      else ok 0

  -- the body of the loop over the lines; a line of fewer than three parts is skipped
  unfoldable pub add_line : ℕ × ℕ → List (List ℕ) → Result (ℕ × ℕ)
  unfolding count_of
  add_line (insertions, deletions) (added ∷ removed ∷ path ∷ parts) = do
    more ← count_of added
    fewer ← count_of removed
    ok (insertions + more, deletions + fewer)
  add_line totals _ = ok totals

  unfoldable pub add_lines : ℕ × ℕ → List (List ℕ) → Result (ℕ × ℕ)
  unfolding add_line
  add_lines totals [] = ok totals
  add_lines totals (line ∷ lines) = do
    after ← add_line totals (split_at 9 line)
    add_lines after lines

  -- `_parse_numstat`
  unfoldable pub parse_numstat : List ℕ → Result (ℕ × ℕ)
  unfolding add_lines splitlines split_at
  parse_numstat output = add_lines (0, 0) (splitlines output)

-- a line of the report: two counts, by their digits, and the path; a binary file has no counts
pub record Row : Type 0 where
  pub added : Option (List ℕ)
  pub removed : Option (List ℕ)
  pub path : List ℕ

pub format_count : Option (List ℕ) → List ℕ
format_count none = 45 ∷ []
format_count (some digits) = map (λ n. 48 + n) digits

format_row : Row → List ℕ
format_row r = format_count r.added ++ 9 ∷ (format_count r.removed ++ 9 ∷ r.path)

pub format_rows : List Row → List ℕ
format_rows [] = []
format_rows (r ∷ rs) = format_row r ++ 10 ∷ format_rows rs

pub power_of_ten : ℕ → ℕ
power_of_ten zero = 1
power_of_ten (suc n) = 10 * power_of_ten n

-- the number that digits stand for, each with the weight of its place
pub number_of : List ℕ → ℕ
number_of [] = 0
number_of (n ∷ ns) = n * power_of_ten (length ns) + number_of ns

pub count : Option (List ℕ) → ℕ
count none = 0
count (some digits) = number_of digits

pub sum_added : List Row → ℕ
sum_added [] = 0
sum_added (r ∷ rs) = count r.added + sum_added rs

pub sum_removed : List Row → ℕ
sum_removed [] = 0
sum_removed (r ∷ rs) = count r.removed + sum_removed rs

abbrev NoBreak : ℕ → Type 0
NoBreak c = is_line_break c ≡ false

abbrev NoTab : ℕ → Type 0
NoTab c = eqb c 9 ≡ false

-- digits, at least one, and not too many for `int`
unfoldable pub IsCount : Digits → Option (List ℕ) → Type 0
IsCount d none = Unit
IsCount d (some []) = ⊥
IsCount d (some (n ∷ ns)) = All (λ m. m ≤ 9) (n ∷ ns) × (d.readable (length (n ∷ ns)) ≡ true)

-- a row as git prints it, its path on one line
pub record IsPlain (d : Digits) (r : Row) : Type 0 where
  pub added : IsCount d r.added
  pub removed : IsCount d r.removed
  pub one_line : All NoBreak r.path

lines_from-line :
    (line cs rest : List ℕ)
    → All NoBreak cs
    → lines_from line false (cs ++ 10 ∷ rest) ≡ (line ++ cs) ∷ lines_from [] false rest
unfolding lines_from
lines_from-line line [] rest h = rw append-nil refl
lines_from-line line (c ∷ cs) rest h =
    rw (h.0, lines_from-line (line ++ c ∷ []) cs rest h.1) (simp append_assoc)

parts_from-part :
    (part cs rest : List ℕ)
    → All NoTab cs
    → parts_from part 9 (cs ++ 9 ∷ rest) ≡ (part ++ cs) ∷ parts_from [] 9 rest
unfolding parts_from
parts_from-part part [] rest h = rw append-nil refl
parts_from-part part (c ∷ cs) rest h =
    rw (h.0, parts_from-part (part ++ c ∷ []) cs rest h.1) (simp append_assoc)

-- a split has a first part
parts_from-cons :
    (part : List ℕ) (separator : ℕ) (cs : List ℕ)
    → (p : List ℕ) × (ps : List (List ℕ)) × (parts_from part separator cs ≡ p ∷ ps)
unfolding parts_from
parts_from-cons part separator [] = (part, [], refl)
parts_from-cons part separator (c ∷ cs) = elim (Bool-cases (eqb c separator)) [
  | inl e ↦ (part, parts_from [] separator cs, rw e refl)
  | inr n ↦ rw n (parts_from-cons (part ++ c ∷ []) separator cs)
]

shift : (k n p s : ℕ) → (k * 10 + n) * p + s ≡ k * (10 * p) + (n * p + s)
shift k n p s = rw (add-mul, mul_assoc) (omega arith)

length-map : (f : ℕ → ℕ) (ns : List ℕ) → length (map f ns) ≡ length ns
length-map f [] = refl
length-map f (n ∷ ns) = ap suc (length-map f ns)

All-append : (P : ℕ → Type 0) (xs ys : List ℕ) → All P xs → All P ys → All P (xs ++ ys)
All-append P [] ys h k = k
All-append P (x ∷ xs) ys h k = (h.0, All-append P xs ys h.1 k)

digits-NoTab : (ns : List ℕ) → All (λ m. m ≤ 9) ns → All NoTab (map (λ n. 48 + n) ns)
digits-NoTab [] h = tt
digits-NoTab (n ∷ ns) h = (let le = h.0 in ground arith, digits-NoTab ns h.1)

digits-NoBreak : (ns : List ℕ) → All (λ m. m ≤ 9) ns → All NoBreak (map (λ n. 48 + n) ns)
digits-NoBreak [] h = tt
digits-NoBreak (n ∷ ns) h = (let le = h.0 in ground arith, digits-NoBreak ns h.1)

module _ (d : Digits) (ascii : IsAscii d) where
  count-NoTab : (o : Option (List ℕ)) → IsCount d o → All NoTab (format_count o)
  unfolding format_count IsCount
  count-NoTab none h = (refl, tt)
  count-NoTab (some []) h = absurd h
  count-NoTab (some (n ∷ ns)) h = digits-NoTab (n ∷ ns) h.0

  count-NoBreak : (o : Option (List ℕ)) → IsCount d o → All NoBreak (format_count o)
  unfolding format_count IsCount
  count-NoBreak none h = (refl, tt)
  count-NoBreak (some []) h = absurd h
  count-NoBreak (some (n ∷ ns)) h = digits-NoBreak (n ∷ ns) h.0

  all_digits-digits :
      (ns : List ℕ) → All (λ m. m ≤ 9) ns → all_digits d (map (λ n. 48 + n) ns) ≡ true
  unfolding all_digits
  all_digits-digits [] h = refl
  all_digits-digits (n ∷ ns) h = rw (ascii.digit n h.0) (all_digits-digits ns h.1)

  int_from-digits :
      (k : ℕ) (ns : List ℕ)
      → All (λ m. m ≤ 9) ns
      → int_from d k (map (λ n. 48 + n) ns) ≡ ok (k * power_of_ten (length ns) + number_of ns)
  unfolding int_from power_of_ten number_of
  int_from-digits k [] h = ap ok (omega arith)
  int_from-digits k (n ∷ ns) h = rw (ascii.value n h.0) (
      int_from-digits (k * 10 + n) ns h.1
      ∙ ap ok (shift k n (power_of_ten (length ns)) (number_of ns)))

  count_of-count : (o : Option (List ℕ)) → IsCount d o → count_of d (format_count o) ≡ ok (count o)
  unfolding count_of isdigit format_count count IsCount
  count_of-count none h = rw ascii.dash refl
  count_of-count (some []) h = absurd h
  count_of-count (some (n ∷ ns)) h =
      rw (ascii.digit n h.0.0, all_digits-digits ns h.0.1, length-map, h.1)
        (int_from-digits 0 (n ∷ ns) h.0 ∙ ap ok (omega arith))

  add_line-row :
      (n m : ℕ) (r : Row)
      → IsPlain d r
      → add_line d (n, m) (split_at 9 (format_row r)) ≡ ok (n + count r.added, m + count r.removed)
  unfolding add_line split_at format_row
  add_line-row n m r plain =
      let (p, ps, e) = parts_from-cons [] 9 r.path in
      rw
        (
          parts_from-part [] (format_count r.added) (format_count r.removed ++ 9 ∷ r.path)
              (count-NoTab r.added plain.added),
          parts_from-part [] (format_count r.removed) r.path (count-NoTab r.removed plain.removed),
          e,
          count_of-count r.added plain.added,
          count_of-count r.removed plain.removed,
        )
        refl

  row-NoBreak : (r : Row) → IsPlain d r → All NoBreak (format_row r)
  unfolding format_row
  row-NoBreak r plain =
      All-append NoBreak (format_count r.added) _ (count-NoBreak r.added plain.added) (
        refl,
        All-append NoBreak (format_count r.removed) _ (count-NoBreak r.removed plain.removed)
            (refl, plain.one_line),
      )

  add_lines-cons :
      (totals after : ℕ × ℕ) (line : List ℕ) (lines : List (List ℕ))
      → add_line d totals (split_at 9 line) ≡ ok after
      → add_lines d totals (line ∷ lines) ≡ add_lines d after lines
  unfolding add_lines
  add_lines-cons totals after line lines h = rw h refl

  add_lines-rows :
      (n m : ℕ) (rs : List Row)
      → All (IsPlain d) rs
      → add_lines d (n, m) (lines_from [] false (format_rows rs))
        ≡ ok (n + sum_added rs, m + sum_removed rs)
  unfolding format_rows sum_added sum_removed
  add_lines-rows n m [] plain = unfold lines_from add_lines in ground arith
  add_lines-rows n m (r ∷ rs) plain =
      rw (lines_from-line [] (format_row r) (format_rows rs) (row-NoBreak r plain.0)) (
        add_lines-cons (n, m) _ (format_row r) _ (add_line-row n m r plain.0)
        ∙ add_lines-rows (n + count r.added) (m + count r.removed) rs plain.1
        ∙ ground arith)

  -- Reading a report that lists rows succeeds and gives the sums of their two columns: a column of digits
  -- is the decimal number that they stand for, and the dash of a binary file counts 0.
  pub parse-format_rows :
      (rs : List Row)
      → All (IsPlain d) rs
      → parse_numstat d (format_rows rs) ≡ ok (sum_added rs, sum_removed rs)
  unfolding parse_numstat
  parse-format_rows rs plain = add_lines-rows 0 0 rs plain ∙ ground arith
