-- ===== src/Mbc/Rtc/Laws.antt =====
-- src/MBC/MBC3.c: the latched clock, its loop, and the flags it keeps.
use game_bloat.Prelude.{
  ℕ, zero, suc, ◌+◌, ◌-◌, ◌*◌, ◌/◌, ◌%◌, ◌<◌, ◌≤◌, ◌≡◌, ◌≢◌, inl, inr, some, refl, ltb, arith,
  bit_and, Bool-cases,
}
use native.Mathlib.Decide.{dec_le}
use game_bloat.Prelude.Int.{ℤ, pos, negsuc, pos_part, ◌+ℤ◌, ◌-ℤ◌, quot, rem, low_part}
use game_bloat.Mbc.Rtc.{
  Rtc, determine_timestamp, write_to_rtc_register, update_halt, update_base_timestamp,
  overflow_loop, overflow_step, clock_of, latch_rtc, day, day_counter_overflow,
}

-- The upper day register, as the operations leave it.
abbrev pub IsRunning : Rtc → Type 0
IsRunning r = r.clock.upper_day_counter ≤ 1

halt_clear : (u : ℕ) → u ≤ 1 → bit_and u 0x40 ≡ 0
halt_clear zero h = refl
halt_clear (suc zero) h = refl
halt_clear (suc (suc u)) h = absurd (omega arith)

determine_timestamp-now : (now : ℕ) (r : Rtc) → IsRunning r → determine_timestamp now r ≡ now
unfolding determine_timestamp
determine_timestamp-now now r h = rw (halt_clear r.clock.upper_day_counter h)

-- Within the first 511 days the latched registers are the time's seconds, minutes, hours and
-- the nine bits of its days.
latch_rtc-clock :
    (now : ℕ) (r : Rtc)
    → IsRunning r
    → now ≤ day_counter_overflow
    → latch_rtc now r
      ≡ some (record r {
        clock = record {
          seconds = now % 60;
          minutes = now / 60 % 60;
          hours = now / 3600 % 24;
          lower_day_counter = now / 86400 % 256;
          upper_day_counter = now / 86400 / 256;
        };
      })
unfolding latch_rtc clock_of rem quot low_part
latch_rtc-clock now r run early = ground (arith, determine_timestamp-now now r run)

low_part-lt : (x : ℤ) → low_part x 512 < 512
unfolding low_part
low_part-lt (pos n) = omega arith
low_part-lt (negsuc n) = omega arith

clock_of-upper : (e : ℤ) → (clock_of e).upper_day_counter ≤ 1
unfolding clock_of
clock_of-upper e = omega (arith, low_part-lt (quot e day))

sub-pos : (n k : ℕ) → k ≤ n → pos n -ℤ pos k ≡ pos (n - k)
unfolding ◌-ℤ◌
sub-pos n k h = ground arith

sub-pos_short : (n k : ℕ) → n ≤ k → pos_part (pos n -ℤ pos k) ≡ 0
unfolding ◌-ℤ◌
sub-pos_short n k h = ground arith

-- One round ends the loop once no full step is left.
overflow_loop-last :
    (fuel n : ℕ) (base : ℤ)
    → n ≤ 2 * overflow_step
    → overflow_loop (suc fuel) (pos n) base
      ≡ some (pos n -ℤ pos overflow_step, base +ℤ pos overflow_step)
unfolding overflow_loop
overflow_loop-last fuel n base h =
    ground (arith, sub-pos n overflow_step, sub-pos_short n overflow_step)

overflow_loop-more :
    (fuel n : ℕ) (base : ℤ)
    → 2 * overflow_step < n
    → overflow_loop (suc fuel) (pos n) base
      ≡ overflow_loop fuel (pos (n - overflow_step)) (base +ℤ pos overflow_step)
unfolding overflow_loop
overflow_loop-more fuel n base h = ground (arith, sub-pos n overflow_step)

overflow_loop-total :
    (fuel n : ℕ) (base : ℤ)
    → n ≤ suc fuel * overflow_step
    → (out : ℤ × ℤ) × (overflow_loop (suc fuel) (pos n) base ≡ some out)
overflow_loop-total zero n base h = (_, overflow_loop-last zero n base (omega arith))
overflow_loop-total (suc fuel) n base h = elim (dec_le n (2 * overflow_step)) [
  | yes short ↦ (_, overflow_loop-last (suc fuel) n base short)
  | no long ↦
      rw (overflow_loop-more (suc fuel) n base (omega arith))
        (overflow_loop-total fuel (n - overflow_step) (base +ℤ pos overflow_step) (omega arith))
]

-- `latchRTC` returns: its loop ends within one round more than the whole steps in the elapsed
-- time. The day register that it leaves has neither the halt flag nor the carry flag,
-- though the carry flag is set where the days overflow: the register is then assigned anew.
pub latch_rtc-total : (now : ℕ) (r : Rtc) → (r' : Rtc) × (latch_rtc now r ≡ some r') × IsRunning r'
unfolding latch_rtc
latch_rtc-total now r = elim (Bool-cases (ltb day_counter_overflow (determine_timestamp now r))) [
  | inl late ↦
      let elapsed = determine_timestamp now r in
      let (out, done) =
        overflow_loop-total (elapsed / overflow_step) elapsed r.base_timestamp (omega arith) in
      (
        record r { base_timestamp = out.1; clock = clock_of out.0 },
        rw (late, done),
        clock_of-upper out.0,
      )
  | inr early ↦
      (record r { clock = clock_of (pos (determine_timestamp now r)) }, rw early, clock_of-upper _)
]

update_halt-clock : (now value : ℕ) (r : Rtc) → (update_halt now value r).clock ≡ r.clock
unfolding update_halt
update_halt-clock now value r = ground arith

pub write_to_rtc_register-clock :
    (now value : ℕ) (r : Rtc) → (write_to_rtc_register now value r).1.clock ≡ r.clock
unfolding write_to_rtc_register update_base_timestamp
write_to_rtc_register-clock now value r =
    ground (arith, update_halt-clock now value (update_base_timestamp now day 256 value r))

-- No write to a clock register reaches the latched registers, so the halt flag is never set and
-- the clock cannot be stopped: after any write the clock still follows the time.
pub write_to_rtc_register-running :
    (now later value : ℕ) (r : Rtc)
    → IsRunning r
    → let (status, r') = write_to_rtc_register now value r in
      (r'.clock ≡ r.clock) × (determine_timestamp later r' ≡ later)
write_to_rtc_register-running now later value r run =
    let kept = write_to_rtc_register-clock now value r in
    (kept, determine_timestamp-now later _ (rw kept run))

negative_seconds :
    (now : ℕ)
    → now < overflow_step
    → now % 60 ≢ 0
    → (clock_of (pos now -ℤ pos overflow_step)).seconds ≡ 196 + now % 60
unfolding clock_of rem low_part ◌-ℤ◌
negative_seconds now short off = ground arith

-- Past 511 days, up to the size of one step of the loop, the step is taken from a smaller number:
-- the elapsed time is negative, and off the minute the seconds register is above 195.
pub latch_rtc-late :
    (now : ℕ) (r : Rtc)
    → IsRunning r
    → day_counter_overflow < now
    → now ≤ overflow_step
    → now % 60 ≢ 0
    → (r' : Rtc) × (latch_rtc now r ≡ some r') × (r'.clock.seconds ≡ 196 + now % 60)
unfolding latch_rtc
latch_rtc-late now r run late short off = (
  record r {
    base_timestamp = r.base_timestamp +ℤ pos overflow_step;
    clock = clock_of (pos now -ℤ pos overflow_step);
  },
  ground (
    arith,
    determine_timestamp-now now r run,
    overflow_loop-last (now / overflow_step) now r.base_timestamp,
  ),
  negative_seconds now (omega arith) off,
)
