-- ===== src/Prelude/Stamps.antt =====
-- What `datetime.fromisoformat` makes of a field: no time at all, a time without a zone, or an
-- instant, in microseconds. `field.isoformat()` of an instant reads back as that instant.
use Prim.Native.Nat.{ℕ, ◌*◌}
use mathlib.Core.Option.{Option, none, some}

pub data Stamp : Type 0 where
  garbled : Stamp
  naive aware : ℕ → Stamp

-- `_dt`, `_time`, `_parse_time`: the instant in UTC, unless the field is refused
abbrev pub instant : Stamp → Option ℕ
instant garbled = none
instant (naive _) = none
instant (aware t) = some t

abbrev pub hour : ℕ
hour = 3600 * 1000000

abbrev pub day : ℕ
day = 24 * hour
