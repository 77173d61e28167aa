-- ===== src/Base/Time.antt =====
-- Timestamps as records keep them. An instant is a number of microseconds since the epoch, and
-- `datetime.isoformat` and `datetime.fromisoformat` are inverse to one another on instants.
use Prim.Native.Nat.{ℕ, ◌*◌, ◌/◌}
use mathlib.Core.Bool.{Bool, true, false}

-- What `datetime.fromisoformat` makes of a stored text: nothing to read, an instant, a time with
-- no offset, or a ValueError.
pub data Stamp : Type 0 where
  blank garbled : Stamp
  at naive : ℕ → Stamp

-- `isoformat(timespec="seconds")` drops the microseconds.
abbrev pub to_seconds : ℕ → Stamp
to_seconds t = at (t / 1000000 * 1000000)

-- A stored text is true unless it is empty.
abbrev pub is_blank : Stamp → Bool
is_blank blank = true
is_blank _ = false
