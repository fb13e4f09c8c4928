-- ===== src/StopWatch/Laws.antt =====
-- A `Stopwatch` against an abstract meter that knows exact times, and the CPU watch.
use network_demo.Base.{
  ℕ, ◌+◌, ◌-◌, ◌*◌, ◌%◌, ◌^◌, ◌≤◌, ◌<◌, ◌≡◌, refl, true, false, List, [], ◌∷◌, if◌then◌else◌, arith,
}
use network_demo.Base.Words.{add_size, sub_size}
use network_demo.StopWatch.{
  Timespec, nanoseconds, Stopwatch, fresh, start, stop, reset, restart, elapsed_nanoseconds,
  elapsed, guarded, Rusage, StopwatchRusage, elapsed_usage, Timestamp, current, used_nanoseconds,
}

-- The time without a bound.
abbrev pub exact : Timespec → ℕ
exact ts = ts.tv_sec * 1000000000 + ts.tv_nsec

pub data Event : Type 0 where
  start_at stop_at restart_at : Timespec → Event
  clear : Event

-- The watch after a history of calls.
pub replay : Stopwatch → List Event → Stopwatch
unfolding start stop reset restart
replay w [] = w
replay w (start_at now ∷ events) = replay (start w now) events
replay w (stop_at now ∷ events) = replay (stop w now) events
replay w (restart_at now ∷ events) = replay (restart w now) events
replay w (clear ∷ events) = replay (reset w) events

-- What a user of the watch thinks of: it runs since a time, or stands with two times.
pub data Meter : Type 0 where
  running : (since : ℕ) → Meter
  halted : (since until : ℕ) → Meter

unfoldable pub meter : Meter → List Event → Meter
meter m [] = m
meter m (start_at now ∷ events) = meter (running (exact now)) events
meter (running since) (stop_at now ∷ events) = meter (halted since (exact now)) events
meter (halted since until) (stop_at now ∷ events) = meter (halted since (exact now)) events
meter m (restart_at now ∷ events) = meter (running (exact now)) events
meter m (clear ∷ events) = meter (halted 0 0) events

unfoldable pub measured : Meter → ℕ → ℕ
measured (running since) now = now - since
measured (halted since until) now = until - since

-- The times of a history do not fall, from `t` on, and end at `now`, which a word holds.
abbrev pub Ordered : ℕ → List Event → ℕ → Type 0
Ordered t [] now = (t ≤ now) × (now < 2 ^ 64)
Ordered t (start_at e ∷ events) now = (t ≤ exact e) × Ordered (exact e) events now
Ordered t (stop_at e ∷ events) now = (t ≤ exact e) × Ordered (exact e) events now
Ordered t (restart_at e ∷ events) now = (t ≤ exact e) × Ordered (exact e) events now
Ordered t (clear ∷ events) now = Ordered t events now

-- The fields of a watch are those of a meter whose times are at most `t`.
abbrev Shows : Stopwatch → ℕ → Meter → Type 0
Shows w t (running since) = (w.is_running ≡ true) × (w.start_ns ≡ since) × (since ≤ t)
Shows w t (halted since until) =
    (w.is_running ≡ false)
    × (w.start_ns ≡ since)
    × (w.stop_ns ≡ until)
    × (since ≤ until)
    × (until ≤ t)

Ordered-lt :
    (t : ℕ) (events : List Event) (now : ℕ) → Ordered t events now → (t ≤ now) × (now < 2 ^ 64)
Ordered-lt t [] now h = h
Ordered-lt t (start_at e ∷ events) now h = omega (arith, h.0, Ordered-lt (exact e) events now h.1)
Ordered-lt t (stop_at e ∷ events) now h = omega (arith, h.0, Ordered-lt (exact e) events now h.1)
Ordered-lt t (restart_at e ∷ events) now h = omega (arith, h.0, Ordered-lt (exact e) events now h.1)
Ordered-lt t (clear ∷ events) now h = Ordered-lt t events now h

elapsed-measured :
    (w : Stopwatch) (t : ℕ) (m : Meter) (now : Timespec)
    → Shows w t m
    → t ≤ exact now
    → exact now < 2 ^ 64
    → elapsed_nanoseconds w now ≡ measured m (exact now)
unfolding elapsed_nanoseconds nanoseconds measured
elapsed-measured w t (running since) now h le lt = rw h.0 (omega (arith, h))
elapsed-measured w t (halted since until) now h le lt = rw h.0 (omega (arith, h))

replay-Shows :
    (events : List Event) (w : Stopwatch) (t : ℕ) (m : Meter) (now : Timespec)
    → Shows w t m
    → Ordered t events (exact now)
    → elapsed_nanoseconds (replay w events) now ≡ measured (meter m events) (exact now)
unfolding replay meter start stop reset restart nanoseconds
replay-Shows [] w t m now h o = elapsed-measured w t m now h o.0 o.1
replay-Shows (start_at e ∷ events) w t m now h o =
    replay-Shows events (start w e) (exact e) (running (exact e)) now
      (refl, omega (arith, Ordered-lt (exact e) events (exact now) o.1), omega arith) o.1
replay-Shows (restart_at e ∷ events) w t m now h o =
    replay-Shows events (restart w e) (exact e) (running (exact e)) now
      (refl, omega (arith, Ordered-lt (exact e) events (exact now) o.1), omega arith) o.1
replay-Shows (stop_at e ∷ events) w t (running since) now h o =
    replay-Shows events (stop w e) (exact e) (halted since (exact e)) now
      (
        refl,
        h.1,
        omega (arith, Ordered-lt (exact e) events (exact now) o.1),
        omega (arith, h, o.0),
        omega arith,
      )
      o.1
replay-Shows (stop_at e ∷ events) w t (halted since until) now h o =
    replay-Shows events (stop w e) (exact e) (halted since (exact e)) now
      (
        refl,
        h.1,
        omega (arith, Ordered-lt (exact e) events (exact now) o.1),
        omega (arith, h, o.0),
        omega arith,
      )
      o.1
replay-Shows (clear ∷ events) w t m now h o =
    replay-Shows events fresh t (halted 0 0) now (refl, refl, refl, omega arith, omega arith) o

-- A watch that was constructed at a time, and then started, stopped, restarted and reset in any
-- order, shows by `elapsed` the time that an exact meter has measured, for a clock that does not fall
-- and stays below `2 ^ 64` nanoseconds.
pub elapsed-replay :
    (made : Timespec) (events : List Event) (now : Timespec)
    → Ordered (exact made) events (exact now)
    → elapsed (replay (start fresh made) events) now
      ≡ measured (meter (running (exact made)) events) (exact now)
unfolding elapsed start nanoseconds
elapsed-replay made events now o =
    replay-Shows events (start fresh made) (exact made) (running (exact made)) now
      (refl, omega (arith, Ordered-lt (exact made) events (exact now) o), omega arith) o

-- One guard after the other on the same counter.
guards : ℕ → List (Timespec × Timespec) → ℕ
guards elapsed_ns [] = elapsed_ns
guards elapsed_ns ((begin, end) ∷ spans) = guards (guarded elapsed_ns begin end) spans

time_in : List (Timespec × Timespec) → ℕ
time_in [] = 0
time_in ((begin, end) ∷ spans) = exact end - exact begin + time_in spans

abbrev pub AreSpans : List (Timespec × Timespec) → Type 0
AreSpans [] = Unit {0}
AreSpans ((begin, end) ∷ spans) = (exact begin ≤ exact end) × (exact end < 2 ^ 64) × AreSpans spans

guarded_lem :
    (elapsed_ns : ℕ) (begin end : Timespec)
    → elapsed_ns < 2 ^ 64
    → exact begin ≤ exact end
    → exact end < 2 ^ 64
    → guarded elapsed_ns begin end ≡ (elapsed_ns + (exact end - exact begin)) % 2 ^ 64
unfolding guarded
guarded_lem elapsed_ns begin end small le lt = omega arith

-- Guards that die one after the other add the time between their construction and their end to the
-- counter, which wraps at `2 ^ 64`.
guards-time_in :
    (elapsed_ns : ℕ) (spans : List (Timespec × Timespec))
    → elapsed_ns < 2 ^ 64
    → AreSpans spans
    → guards elapsed_ns spans ≡ (elapsed_ns + time_in spans) % 2 ^ 64
unfolding guards time_in
guards-time_in elapsed_ns [] small h = omega arith
guards-time_in elapsed_ns ((begin, end) ∷ spans) small h =
    let one : guarded elapsed_ns begin end ≡ (elapsed_ns + (exact end - exact begin)) % 2 ^ 64 =
      guarded_lem elapsed_ns begin end small h.0 h.1 in
    omega (arith, one, guards-time_in (guarded elapsed_ns begin end) spans (omega (arith, one)) h.2)

parts_lem :
    (t u : Timestamp)
    → sub_size (used_nanoseconds t true true) (used_nanoseconds u true true)
      ≡ add_size
          (sub_size (used_nanoseconds t true false) (used_nanoseconds u true false))
          (sub_size (used_nanoseconds t false true) (used_nanoseconds u false true))
unfolding used_nanoseconds
parts_lem t u = omega arith

-- The CPU time of a watch is its user time and its system time together, modulo `2 ^ 64`; with
-- neither counted it is 0.
elapsed_usage_parts :
    (w : StopwatchRusage) (now : Rusage)
    → (elapsed_usage w true true now
        ≡ add_size (elapsed_usage w true false now) (elapsed_usage w false true now))
      × (elapsed_usage w false false now ≡ 0)
unfolding elapsed_usage
elapsed_usage_parts w now =
    (parts_lem (if w.is_running then current now else w.stop_ts) w.start_ts, refl)
