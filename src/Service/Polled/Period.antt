-- ===== src/Service/Polled/Period.antt =====
-- Which intervals start the ticker of a collecting goroutine (pkg/service/service.go).
use mbsscaner.Prelude.{
  ℕ, zero, suc, ◌+◌, ◌*◌, ◌%◌, ◌≤◌, ◌<◌, ◌≡◌, refl, ap, pos, negsuc, lt→ltb, le→ltb, ◌-◌, String,
  List, arith, true, false,
}
use mbsscaner.Config.Types.{Point}
use mbsscaner.Config.Settings.{is_positive}
use mbsscaner.Modbus.Result.{panics}
use mbsscaner.Modbus.Client.{Client}
use mbsscaner.Modbus.Value.{Floats}
use mbsscaner.Kafka.{Broker}
use mbsscaner.Service.Polled.{Signal, period, Polled, start_collector}

period_of_small : (n : ℕ) → n < 9_223_372_036 → period (pos n) ≡ pos (n * 1_000_000_000)
unfolding period
period_of_small n h =
    let same : n % 0x1_0000_0000_0000_0000 ≡ n = omega arith in
    let fits : n * 1_000_000_000 % 0x1_0000_0000_0000_0000 ≡ n * 1_000_000_000 = omega arith in
    rw (same, fits, lt→ltb (n * 1_000_000_000) 0x8000_0000_0000_0000 (omega arith)) refl

period_of_negative :
    (n : ℕ) → n < 9_223_372_036 → period (negsuc n) ≡ negsuc (n * 1_000_000_000 + 999_999_999)
unfolding period
period_of_negative n h =
    let small : n % 0x1_0000_0000_0000_0000 ≡ n = omega arith in
    let wraps : (0xffff_ffff_ffff_ffff - n) * 1_000_000_000 % 0x1_0000_0000_0000_0000
        ≡ 0x1_0000_0000_0000_0000 - (n * 1_000_000_000 + 1_000_000_000) =
      omega arith in
    rw
      (
        small,
        wraps,
        le→ltb (0x1_0000_0000_0000_0000 - (n * 1_000_000_000 + 1_000_000_000)) 0x8000_0000_0000_0000
            (omega arith),
      )
      (ap negsuc (omega arith))

is_positive-pos : (n : ℕ) → 1 ≤ n → is_positive (pos n) ≡ true
unfolding is_positive
is_positive-pos zero h = absurd (omega arith)
is_positive-pos (suc n) h = refl

-- An interval from 1 up to 9223372035 starts the ticker.
pub period_positive : (n : ℕ) → 1 ≤ n → n < 9_223_372_036 → is_positive (period (pos n)) ≡ true
period_positive n h k = rw (period_of_small n k) (is_positive-pos (n * 1_000_000_000) (omega arith))

-- From the interval 9223372037 up to 18446744073, the nanoseconds are negative as an int64.
period_of_large :
    (n : ℕ) → 9_223_372_037 ≤ n → n ≤ 18_446_744_073 → is_positive (period (pos n)) ≡ false
unfolding period is_positive
period_of_large n h k =
    let same : n % 0x1_0000_0000_0000_0000 ≡ n = omega arith in
    let fits : n * 1_000_000_000 % 0x1_0000_0000_0000_0000 ≡ n * 1_000_000_000 = omega arith in
    rw (same, fits, le→ltb (n * 1_000_000_000) 0x8000_0000_0000_0000 (omega arith)) refl

module _ (floats : Floats) (client : Client) (broker : Broker) (topic : String) where
  -- The goroutine panics before the first round, and changes nothing, with the interval 0, which
  -- `Validate` lets through, with a negative interval from -9223372036 on, and with an interval from
  -- 9223372037 up to 18446744073, whose nanoseconds are negative as an int64.
  pub start_collector_panics :
      (device : String) (points : List Point) (signals : List Signal)
      (s : Polled client.Conn broker.State) (n large : ℕ)
      → n < 9_223_372_036
      → 9_223_372_037 ≤ large
      → large ≤ 18_446_744_073
      → (start_collector floats client broker topic device points (pos 0) signals s ≡ (panics, s))
        × (start_collector floats client broker topic device points (negsuc n) signals s
            ≡ (panics, s))
        × (start_collector floats client broker topic device points (pos large) signals s
            ≡ (panics, s))
  unfolding start_collector is_positive period
  start_collector_panics device points signals s n large h low high =
      (refl, rw (period_of_negative n h) refl, rw (period_of_large large low high) refl)
