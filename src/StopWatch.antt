-- ===== src/StopWatch.antt =====
-- utils/StopWatch.h: `Stopwatch`, `StopwatchRUsage` and `StopwatchGuard`. What a clock shows is an
-- argument of each operation that reads it. Seconds as `double` are left out.
pub mod Laws
pub mod Shared
mod Tests
use network_demo.Base.{ℕ, ◌+◌, ◌*◌, ◌/◌, ◌%◌, ◌^◌, Bool, true, false, if◌then◌else◌, List, [], ◌∷◌}
use network_demo.Base.Words.{add_size, sub_size}

pub record Timespec : Type 0 where
  pub tv_sec : ℕ
  pub tv_nsec : ℕ

-- `StopWatchDetail::nanoseconds`
unfoldable pub nanoseconds : Timespec → ℕ
nanoseconds ts = (ts.tv_sec * 1000000000 + ts.tv_nsec) % 2 ^ 64

pub record Stopwatch : Type 0 where
  pub start_ns : ℕ
  pub stop_ns : ℕ
  pub is_running : Bool

-- The members before the constructor calls `start`.
abbrev pub fresh : Stopwatch
fresh = record { start_ns = 0; stop_ns = 0; is_running = false }

pub start : Stopwatch → Timespec → Stopwatch
unfolding nanoseconds
start w now = record w { start_ns = nanoseconds now; is_running = true }

pub stop : Stopwatch → Timespec → Stopwatch
unfolding nanoseconds
stop w now = record w { stop_ns = nanoseconds now; is_running = false }

pub reset : Stopwatch → Stopwatch
reset w = fresh

pub restart : Stopwatch → Timespec → Stopwatch
unfolding start
restart w now = start w now

pub elapsed_nanoseconds : Stopwatch → Timespec → ℕ
unfolding nanoseconds
elapsed_nanoseconds w now =
    if w.is_running then sub_size (nanoseconds now) w.start_ns else sub_size w.stop_ns w.start_ns

pub elapsed : Stopwatch → Timespec → ℕ
unfolding elapsed_nanoseconds
elapsed w now = elapsed_nanoseconds w now

pub elapsed_microseconds : Stopwatch → Timespec → ℕ
unfolding elapsed_nanoseconds
elapsed_microseconds w now = elapsed_nanoseconds w now / 1000

pub elapsed_milliseconds : Stopwatch → Timespec → ℕ
unfolding elapsed_nanoseconds
elapsed_milliseconds w now = elapsed_nanoseconds w now / 1000000

-- `~StopwatchGuard` of a guard around a `Stopwatch`: the new value of `elapsed_ns`.
pub guard_end : ℕ → Stopwatch → Timespec → ℕ
unfolding elapsed_nanoseconds
guard_end elapsed_ns w now = add_size elapsed_ns (elapsed_nanoseconds w now)

-- A guard that is made when the clock shows the first time and dies at the second.
pub guarded : ℕ → Timespec → Timespec → ℕ
unfolding guard_end start
guarded elapsed_ns begin end = guard_end elapsed_ns (start fresh begin) end

-- What `getrusage` reports of a thread.
pub record Rusage : Type 0 where
  pub utime_sec : ℕ
  pub utime_usec : ℕ
  pub stime_sec : ℕ
  pub stime_usec : ℕ

pub record Timestamp : Type 0 where
  pub user_ns : ℕ
  pub sys_ns : ℕ

-- `Timestamp::current`
pub current : Rusage → Timestamp
current r = record {
  user_ns = (r.utime_sec * 1000000000 + r.utime_usec * 1000) % 2 ^ 64;
  sys_ns = (r.stime_sec * 1000000000 + r.stime_usec * 1000) % 2 ^ 64;
}

-- `Timestamp::nanoseconds`
pub used_nanoseconds : Timestamp → Bool → Bool → ℕ
used_nanoseconds t count_user count_sys =
    add_size (if count_user then t.user_ns else 0) (if count_sys then t.sys_ns else 0)

pub record StopwatchRusage : Type 0 where
  pub start_ts : Timestamp
  pub stop_ts : Timestamp
  pub is_running : Bool

abbrev pub zero_time : Timestamp
zero_time = record { user_ns = 0; sys_ns = 0 }

pub start_usage : StopwatchRusage → Rusage → StopwatchRusage
unfolding current
start_usage w now = record w { start_ts = current now; is_running = true }

pub stop_usage : StopwatchRusage → Rusage → StopwatchRusage
unfolding current
stop_usage w now = record w { stop_ts = current now; is_running = false }

pub reset_usage : StopwatchRusage → StopwatchRusage
reset_usage w = record { start_ts = zero_time; stop_ts = zero_time; is_running = false }

pub elapsed_usage : StopwatchRusage → Bool → Bool → Rusage → ℕ
unfolding current used_nanoseconds
elapsed_usage w count_user count_sys now =
    sub_size
      (used_nanoseconds (if w.is_running then current now else w.stop_ts) count_user count_sys)
      (used_nanoseconds w.start_ts count_user count_sys)

pub elapsed_usage_microseconds : StopwatchRusage → Bool → Bool → Rusage → ℕ
unfolding elapsed_usage
elapsed_usage_microseconds w count_user count_sys now =
    elapsed_usage w count_user count_sys now / 1000

pub elapsed_usage_milliseconds : StopwatchRusage → Bool → Bool → Rusage → ℕ
unfolding elapsed_usage
elapsed_usage_milliseconds w count_user count_sys now =
    elapsed_usage w count_user count_sys now / 1000000
