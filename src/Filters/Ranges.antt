-- ===== src/Filters/Ranges.antt =====
-- app/classes/url.py, URLParam and subtract_stepped_ranges: the numbers that stand for a parameter of
-- a URL.
use notifyr.Base.{
  ℕ, zero, suc, ◌+◌, ◌%◌, ◌==◌, ◌≡◌, refl, Bool, true, false, ◌&&◌, if◌then◌else◌, Option, none,
  some, List, [], ◌∷◌, arith,
}
use notifyr.Base.Int.{ℤ, pos, pos_part, neg_part, ◌+ℤ◌, ◌-ℤ◌, ◌≤ℤ◌, leb_ℤ, ltb_ℤ, is_zero}
use notifyr.Failure.{Result, ok, raise, value_error, zero_division, ◌>>=◌}

-- The values of a URLParam with the type 'range', with those of its `exclude`.
pub record Range : Type 0 where
  pub start : ℤ
  pub step : ℤ
  pub end_ : ℤ

-- validate_range_or_list, for a tuple of three
unfoldable pub new_range : ℤ → ℤ → ℤ → Result Range
new_range start step end_ =
    if ltb_ℤ end_ start
    then raise value_error
    else if is_zero step
    then raise value_error
    else ok record { start = start; step = step; end_ = end_ }

-- validate_exclude, for two ranges
unfoldable pub validate_exclude : Range → Range → Result Range
validate_exclude self exclude =
    if ltb_ℤ exclude.start self.start
    then raise value_error
    else if ltb_ℤ self.end_ exclude.end_
    then raise value_error
    else if ltb_ℤ exclude.step self.step
    then raise value_error
    else ok exclude

-- range(start, stop, step) of Python for a step that is not 0, on as many steps as there may be
abbrev pub count_up : ℕ → ℤ → ℤ → ℤ → List ℤ
count_up zero x stop step = []
count_up (suc fuel) x stop step =
    if ltb_ℤ x stop then x ∷ count_up fuel (x +ℤ step) stop step else []

abbrev pub count_down : ℕ → ℤ → ℤ → ℤ → List ℤ
count_down zero x stop step = []
count_down (suc fuel) x stop step =
    if ltb_ℤ stop x then x ∷ count_down fuel (x +ℤ step) stop step else []

unfoldable pub range : ℤ → ℤ → ℤ → List ℤ
range start stop step =
    if ltb_ℤ (pos 0) step
    then count_up (pos_part (stop -ℤ start)) start stop step
    else count_down (pos_part (start -ℤ stop)) start stop step

-- (x - s) % step == 0, whatever the signs are
unfoldable pub is_multiple : ℤ → ℤ → ℤ → Result Bool
is_multiple x s step =
    if is_zero step
    then raise zero_division
    else ok (((pos_part (x -ℤ s) + neg_part (x -ℤ s)) % (pos_part step + neg_part step)) == 0)

-- Is x one of the excluded numbers? The three values are taken apart as start, end and step.
unfoldable pub is_in_other : Range → ℤ → Result Bool
is_in_other other x =
    let s2 = other.start in
    let e2 = other.step in
    let step2 = other.end_ in
    let in_bounds =
      if ltb_ℤ (pos 0) step2 then leb_ℤ s2 x && ltb_ℤ x e2 else ltb_ℤ e2 x && leb_ℤ x s2 in
    if in_bounds then is_multiple x s2 step2 else ok false

-- The loop of subtract_stepped_ranges.
unfoldable pub subtract_from : Range → List ℤ → Result (List ℤ)
subtract_from other [] = ok []
subtract_from other (x ∷ xs) = is_in_other other x >>= λ is_in_r2.
    subtract_from other xs >>= λ v. ok (if is_in_r2 then v else x ∷ v)

unfoldable pub subtract_stepped_ranges : Range → Range → Result (List ℤ)
subtract_stepped_ranges self other = subtract_from other (range self.start self.end_ self.step)

-- process_values of generate_urls, for a range
unfoldable pub process_values : Range → Option Range → Result (List ℤ)
process_values self exclude = elim exclude [
  | some other ↦ subtract_stepped_ranges self other
  | none ↦ ok (range self.start (self.end_ +ℤ pos 1) self.step)
]

not_in_other :
    (other : Range) (x : ℤ)
    → other.step ≤ℤ other.start
    → ltb_ℤ (pos 0) other.end_ ≡ true
    → is_in_other other x ≡ ok false
unfolding is_in_other
not_in_other other x h k = ground (arith, h, k)

subtract_from_whole :
    (other : Range) (xs : List ℤ)
    → other.step ≤ℤ other.start
    → ltb_ℤ (pos 0) other.end_ ≡ true
    → subtract_from other xs ≡ ok xs
unfolding subtract_from
subtract_from_whole other [] h k = refl
subtract_from_whole other (x ∷ xs) h k =
    rw (not_in_other other x h k) (rw (subtract_from_whole other xs h k) refl)

-- A range that excludes another, whose step is at most its start and whose end is positive, has all
-- its numbers but its own end: nothing is excluded.
pub process_values-whole :
    (self other : Range)
    → other.step ≤ℤ other.start
    → ltb_ℤ (pos 0) other.end_ ≡ true
    → process_values self (some other) ≡ ok (range self.start self.end_ self.step)
unfolding process_values subtract_stepped_ranges
process_values-whole self other h k =
    subtract_from_whole other (range self.start self.end_ self.step) h k
