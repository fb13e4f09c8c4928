-- ===== src/StopWatch/Shared/Exclusive.antt =====
-- The `Lock` of `AtomicStopwatch` is in one hand at most.
use network_demo.Base.{
  ℕ, ◌+◌, ◌%◌, ◌^◌, ◌≤◌, ◌<◌, ◌≡◌, refl, true, false, List, [], ◌∷◌, ltb, ◌↔◌, if◌then◌else◌, arith,
  inl, inr, Bool-cases, ltb→lt, ℕ_discrete,
}
use network_demo.Base.Family.{update_self, update_ne, total, total-update, total-eq-zero, le-total}
use network_demo.StopWatch.{Timespec, nanoseconds}
use network_demo.StopWatch.Laws.{exact}
use network_demo.StopWatch.Shared.{
  unlocked_nanoseconds, is_locked, Call, restart, restart_deferred, Pc, ready, sampled, looping,
  holding, returned, Chance, round, step, System, init, turn, run,
}

abbrev pub held : Pc → ℕ
held holding = 1
held _ = 0

abbrev pub bit : ℕ → ℕ
bit start_ns = if is_locked start_ns then 1 else 0

abbrev pub threshold_of : Call → ℕ
threshold_of (restart threshold) = threshold
threshold_of (restart_deferred threshold) = threshold

-- Without its highest bit the watch, and what a thread remembers of it, is a time below `limit`.
abbrev Fits : ℕ → ℕ → Type 0
Fits limit start_ns = (start_ns % 2 ^ 63 < limit) × (start_ns < 2 ^ 64)

abbrev IsLocal : ℕ → Pc → Type 0
IsLocal limit (sampled current_ns) = current_ns < limit
IsLocal limit (looping current_ns current_start_ns) =
    (current_ns < limit) × Fits limit current_start_ns
IsLocal limit _ = Unit {0}

-- Where a step leaves the watch and the thread.
abbrev Keeps : ℕ → ℕ → ℕ → ℕ × Pc → Type 0
Keeps limit held_before start_ns (start_ns', p) =
    Fits limit start_ns' × IsLocal limit p × (held p + bit start_ns ≡ held_before + bit start_ns')

module _ (c : Chance) (limit start_ns : ℕ) (clock : exact c.now < limit)
    (fits : Fits limit start_ns) where
  round-restart-Keeps :
      (threshold current_ns current_start_ns : ℕ)
      → threshold + limit ≤ 2 ^ 63
      → current_ns < limit
      → Fits limit current_start_ns
      → Keeps limit 0 start_ns
          (round (restart threshold) c.spurious start_ns current_ns current_start_ns)
  unfolding round
  round-restart-Keeps threshold current_ns current_start_ns room lt from = ground arith

  round_deferred-Keeps :
      (threshold current_ns current_start_ns : ℕ)
      → threshold + limit ≤ 2 ^ 63
      → current_ns < limit
      → Fits limit current_start_ns
      → Keeps limit 0 start_ns
          (round (restart_deferred threshold) c.spurious start_ns current_ns current_start_ns)
  unfolding round
  round_deferred-Keeps threshold current_ns current_start_ns room lt from = ground arith

  sample : unlocked_nanoseconds c.now < limit
  unfolding unlocked_nanoseconds nanoseconds
  sample = omega arith

  low : unlocked_nanoseconds c.now < 2 ^ 63
  unfolding unlocked_nanoseconds
  low = omega arith

  step-Keeps :
      (call : Call) (p : Pc)
      → threshold_of call + limit ≤ 2 ^ 63
      → IsLocal limit p
      → held p ≤ bit start_ns
      → Keeps limit (held p) start_ns (step call c start_ns p)
  unfolding step
  step-Keeps call ready room h mine = (fits, sample, refl)
  step-Keeps call (sampled current_ns) room h mine = (fits, (h, fits), refl)
  step-Keeps (restart threshold) (looping current_ns current_start_ns) room h mine =
      round-restart-Keeps threshold current_ns current_start_ns room h.0 h.1
  step-Keeps (restart_deferred threshold) (looping current_ns current_start_ns) room h mine =
      round_deferred-Keeps threshold current_ns current_start_ns room h.0 h.1
  step-Keeps call holding room h mine = (omega (arith, sample, low), tt, ground (arith, low))
  step-Keeps call (returned r) room h mine = (fits, tt, refl)

-- The clock shows less than `limit` in every event.
abbrev pub Timely : ℕ → List (ℕ × Chance) → Type 0
Timely limit [] = Unit {0}
Timely limit ((id, c) ∷ events) = (exact c.now < limit) × Timely limit events

abbrev pub holders : ℕ → System → ℕ
holders threads s = total threads (λ id. held (s.pc id))

module _ (calls : ℕ → Call) (threads limit : ℕ)
    (room : (id : ℕ) → threshold_of (calls id) + limit ≤ 2 ^ 63) where
  record Inv (s : System) : Type 0 where
    watch : Fits limit s.start_ns
    locals : (id : ℕ) → IsLocal limit (s.pc id)
    lock : holders threads s ≡ bit s.start_ns

  turn-Inv :
      {s : System} (id : ℕ) (c : Chance)
      → id < threads
      → exact c.now < limit
      → Inv s
      → Inv (turn calls s (id, c))
  unfolding turn
  turn-Inv {s} id c lt clock inv =
      let p' : Pc = (step (calls id) c s.start_ns (s.pc id)).1 in
      let (watch, local, change) =
        step-Keeps c limit s.start_ns clock inv.watch (calls id) (s.pc id) (room id) (inv.locals id)
          (omega (arith, inv.lock, le-total threads (λ j. held (s.pc j)) id lt)) in
      record {
        watch = watch;
        locals = λ j. elim (ℕ_discrete j id) [
          | yes e ↦ rw (e, update_self s.pc id p') local
          | no ne ↦ rw (update_ne s.pc id p' j ne) (inv.locals j)
        ];
        lock = omega (arith, change, inv.lock, total-update held threads s.pc id p' lt);
      }

  run-Inv :
      (events : List (ℕ × Chance)) {s : System}
      → Timely limit events
      → Inv s
      → Inv (run calls threads s events)
  unfolding run
  run-Inv [] h inv = inv
  run-Inv ((id, c) ∷ events) h inv = elim (Bool-cases (ltb id threads)) [
    | inl e ↦ rw (run, e) (run-Inv events h.1 (turn-Inv id c (ltb→lt id threads e) h.0 inv))
    | inr e ↦ rw (run, e) (run-Inv events h.1 inv)
  ]

  init-Inv : (now : Timespec) → exact now < limit → Inv (init now)
  unfolding init unlocked_nanoseconds nanoseconds
  init-Inv now clock =
      let none_yet : total threads (λ id. 0) ≡ 0 =
        total-eq-zero threads (λ id. 0) (λ id lt. refl) in
      record {
        watch = omega (arith, room 0);
        locals = λ id. tt;
        lock = ground (arith, none_yet, room 0);
      }

  -- However the threads interleave and `compare_exchange_weak` fails, at most one of them holds a
  -- `Lock`, and exactly then the highest bit of the watch is set, as long as the clock and the
  -- thresholds stay below `2 ^ 63` together.
  pub one_holder :
      (now : Timespec) (events : List (ℕ × Chance))
      → exact now < limit
      → Timely limit events
      → (holders threads (run calls threads (init now) events) ≤ 1)
        × ((holders threads (run calls threads (init now) events) ≡ 1)
            ↔ (is_locked (run calls threads (init now) events).start_ns ≡ true))
  one_holder now events clock timely =
      let inv = run-Inv events timely (init-Inv now clock) in ground (arith, inv.lock)

-- A `Lock` is taken only in a round that finds the watch unlocked, with the time that the thread
-- remembers, and its threshold over; so two locks are a threshold apart.
step_acquires :
    (call : Call) (c : Chance) (start_ns : ℕ) (p : Pc)
    → threshold_of call < 2 ^ 63
    → held p ≡ 0
    → held (step call c start_ns p).1 ≡ 1
    → (current_ns : ℕ) × (call ≡ restart_deferred (threshold_of call))
      × (p ≡ looping current_ns start_ns)
      × (is_locked start_ns ≡ false)
      × (start_ns + threshold_of call ≤ current_ns)
unfolding step round
step_acquires call c start_ns ready small free taken = absurd (omega arith)
step_acquires call c start_ns (sampled current_ns) small free taken = absurd (omega arith)
step_acquires (restart threshold) c start_ns (looping current_ns current_start_ns) small free
      taken =
    absurd (ground arith)
step_acquires (restart_deferred threshold) c start_ns (looping current_ns current_start_ns) small
      free taken =
    (current_ns, refl, ground arith, ground arith, ground arith)
step_acquires call c start_ns holding small free taken = absurd (omega arith)
step_acquires call c start_ns (returned r) small free taken = absurd (omega arith)
