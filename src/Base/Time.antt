-- ===== src/Base/Time.antt =====
-- src/base/time.rs: the logical clock of the commit protocol, over u64.
pub mod Bounds
use bellbook.Prelude.{
  ℕ, suc, ◌+◌, ◌-◌, ◌^◌, ◌≤◌, ◌<◌, ◌≡◌, refl, Bool, true, false, Option, none, some, leb, ltb,
  if◌then◌else◌, unwrap_or, arith,
}

-- `u64::MAX`.
abbrev pub time_max : ℕ
time_max = 2 ^ 64 - 1

-- `u64::saturating_add` and `u64::checked_add`.
abbrev pub saturating_add : ℕ → ℕ → ℕ
saturating_add a b = if leb (a + b) time_max then a + b else time_max

abbrev pub checked_add : ℕ → ℕ → Option ℕ
checked_add a b = if leb (a + b) time_max then some (a + b) else none

pub record TimeSource : Type 0 where
  pub next : ℕ

unfoldable pub from_last_time : Option ℕ → TimeSource
from_last_time last_time = record { next = saturating_add (unwrap_or last_time 0) 1 }

unfoldable pub next_time : TimeSource → ℕ × TimeSource
next_time ts = (ts.next, record { next = saturating_add ts.next 1 })

unfoldable pub exhausted : TimeSource → Bool
exhausted ts = leb (time_max - 1) ts.next

unfoldable pub peek : TimeSource → ℕ
peek ts = ts.next
