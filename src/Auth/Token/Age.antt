-- ===== src/Auth/Token/Age.antt =====
-- app/services/security_service.py, set_status: how a token ages.
use notifyr.Base.{ℕ, ◌+◌, ◌*◌, ◌≡◌, ◌≤◌, ◌↔◌, arith, true}
use notifyr.Base.Int.{ℤ, pos, ◌-ℤ◌, ◌+ℤ◌, ◌≤ℤ◌, ltb_ℤ, -ℤ_parts, +ℤ_parts, *ℤ_parts}
use notifyr.Auth.Token.{Status, active, inactive, expired, status_at, half_seconds}

abbrev pub rank : Status → ℕ
rank active = 0
rank inactive = 1
rank expired = 2

-- A token never gets younger: as time goes on its status goes from active over inactive to expired.
pub status_at_monotone :
    (created_at expired_at now later : ℤ)
    → now ≤ℤ later
    → rank (status_at created_at expired_at now) ≤ rank (status_at created_at expired_at later)
unfolding status_at
status_at_monotone c e n m h = ground (
  arith,
  -ℤ_parts e n,
  -ℤ_parts e m,
  -ℤ_parts e c,
  -ℤ_parts n c,
  -ℤ_parts m c,
  *ℤ_parts 8 (e -ℤ c),
  *ℤ_parts 10 (n -ℤ c),
  *ℤ_parts 10 (m -ℤ c),
)

-- A token is expired exactly when its end lies before now.
pub status_at-expired_iff :
    (created_at expired_at now : ℤ)
    → (status_at created_at expired_at now ≡ expired) ↔ (ltb_ℤ expired_at now ≡ true)
unfolding status_at
status_at-expired_iff c e n = ground (arith, -ℤ_parts e n)

-- The age of a token that was issued for n half seconds: active for four fifths of them, then
-- inactive to the end, then expired.
pub status_at-issued :
    (created_at age : ℤ) (n : ℕ)
    → let status = status_at created_at (created_at +ℤ half_seconds n) (created_at +ℤ age) in
      ((status ≡ active) ↔ (age ≤ℤ pos (400000 * n)))
      × ((status ≡ expired) ↔ (pos (500000 * n + 1) ≤ℤ age))
unfolding status_at
status_at-issued c a n = ground (
  arith,
  +ℤ_parts c (half_seconds n),
  +ℤ_parts c a,
  -ℤ_parts (c +ℤ half_seconds n) (c +ℤ a),
  -ℤ_parts (c +ℤ half_seconds n) c,
  -ℤ_parts (c +ℤ a) c,
  *ℤ_parts 8 (c +ℤ half_seconds n -ℤ c),
  *ℤ_parts 10 (c +ℤ a -ℤ c),
)
