-- ===== src/Time.antt =====
-- Python's `datetime` as the services use it: a wall clock reading with or without a zone
-- (backend/app/api/v1/coordination/service.py, `_coerce_utc` and the two checks of a time).
use ingame.Prelude.{ℕ, ◌+◌, ◌-◌, ◌*◌, Option, none, some, ltb, leb, if◌then◌else◌}
use ingame.Errors.{ErrorCode, Result, ok, err, forbidden, overflow_error}

-- the offset of a zone from UTC, in microseconds
pub data Zone : Type 0 where
  east west : ℕ → Zone

-- `wall` counts microseconds since 0001-01-01T00:00, the least `datetime`.
pub record DateTime : Type 0 where
  pub wall : ℕ
  pub tzinfo : Option Zone

abbrev pub utc : Option Zone
utc = some (east 0)

abbrev pub at_utc : ℕ → DateTime
at_utc t = record { wall = t; tzinfo = utc }

-- The first instant after 9999-12-31T23:59:59.999999.
abbrev pub max_wall : ℕ
max_wall = 315537897600 * 1000000

-- `value.astimezone(timezone.utc)` raises `OverflowError` out of range.
unfoldable pub astimezone_utc : ℕ → Zone → Result DateTime
astimezone_utc wall (east d) = if ltb wall d then err overflow_error else ok (at_utc (wall - d))
astimezone_utc wall (west d) =
    if ltb (wall + d) max_wall then ok (at_utc (wall + d)) else err overflow_error

-- `_coerce_utc`: a reading with no zone is taken as UTC.
unfoldable pub coerce_utc : DateTime → Result DateTime
unfolding astimezone_utc
coerce_utc value = elim value.tzinfo [
  | none ↦ ok (at_utc value.wall)
  | some zone ↦ astimezone_utc value.wall zone
]

-- `_coerce_utc` of a column that may be null
unfoldable pub coerce_utc? : Option DateTime → Result (Option DateTime)
coerce_utc? none = ok none
coerce_utc? (some value) = elim (coerce_utc value) [ ok v ↦ ok (some v) | err e ↦ err e ]

-- `_ensure_valid_range`
unfoldable pub ensure_valid_range : DateTime → DateTime → ErrorCode → Result (Unit {0})
ensure_valid_range starts_at ends_at code = elim (coerce_utc starts_at) [
  | err e ↦ err e
  | ok normalized_start ↦ elim (coerce_utc ends_at) [
    | err e ↦ err e
    | ok normalized_end ↦
        if leb normalized_end.wall normalized_start.wall then err (forbidden code) else ok tt
  ]
]

-- `_ensure_valid_future`, at the reading `now` of the clock in UTC
unfoldable pub ensure_valid_future : ℕ → DateTime → ErrorCode → Result (Unit {0})
ensure_valid_future now starts_at code = elim (coerce_utc starts_at) [
  | err e ↦ err e
  | ok normalized_start ↦ if leb normalized_start.wall now then err (forbidden code) else ok tt
]
