-- ===== src/Modbus/Batch/Split.antt =====
-- Splitting a long read into sub-batches (pkg/modbus/collector.go) gives what one read would.
use mbsscaner.Prelude.{
  ◌∙◌, ap, ℕ, zero, suc, ◌+◌, ◌-◌, ◌%◌, ◌≤◌, ◌<◌, ◌≡◌, refl, List, ◌++◌, arith, ltb, if◌then◌else◌,
  ap,
}
use mbsscaner.Modbus.Result.{ok, err, Error, M}
use mbsscaner.Modbus.Batch.{split_loop}
use mbsscaner.Modbus.Batch.Serves.{slice, slice-append, Reads, Yields}

-- The size of the next sub-batch.
abbrev pub next_batch : ℕ → ℕ → ℕ
next_batch max_read n = if ltb max_read n then max_read else n

module _ {S : Type 0} (read : ℕ → ℕ → M S (List ℕ)) (max_read : ℕ) where
  -- One round, when the first sub-batch has been read and the rest, from `next` on, yields `tail`.
  split_loop-suc :
      (rounds start n next : ℕ) (s s' s'' : S) (head tail : List ℕ)
      → (start + next_batch max_read (suc n)) % 0x1_0000 ≡ next
      → read start (next_batch max_read (suc n)) s ≡ (ok head, s')
      → split_loop read max_read rounds next (suc n - next_batch max_read (suc n)) s'
        ≡ (ok tail, s'')
      → split_loop read max_read (suc rounds) start (suc n) s ≡ (ok (head ++ tail), s'')
  unfolding split_loop
  split_loop-suc rounds start n next s s' s'' head tail w e f = rw e (rw w (rw f))

  -- A sub-batch that fails ends the whole read with its error.
  split_loop_error :
      (rounds start n : ℕ) (s s' : S) (e : Error)
      → read start (next_batch max_read (suc n)) s ≡ (err e, s')
      → split_loop read max_read (suc rounds) start (suc n) s ≡ (err e, s')
  unfolding split_loop
  split_loop_error rounds start n s s' e h = rw h

pub next_batch_bounds :
    (max_read n : ℕ)
    → 1 ≤ max_read
    → (1 ≤ next_batch max_read (suc n))
      × ((next_batch max_read (suc n) ≤ max_read) × (next_batch max_read (suc n) ≤ suc n))
next_batch_bounds max_read n h = ground arith

-- With a positive sub-batch size that the device allows, and as many rounds as registers, the loop
-- ends, asks for no sub-batch above that size, and returns exactly the registers of the range.
pub split_loop-Yields :
    {S : Type 0} (Live : S → Type 0) (mem : ℕ → ℕ) (read : ℕ → ℕ → M S (List ℕ)) (max_read : ℕ)
    → 1 ≤ max_read
    → Reads Live max_read mem read
    → (rounds start n : ℕ) (s : S) → Live s
    → n ≤ rounds
    → start + n < 0x1_0000
    → Yields Live (slice mem start n) (split_loop read max_read rounds start n s)
unfolding split_loop
split_loop-Yields Live mem read max_read pos reads zero start zero s live h fits = (s, refl, live)
split_loop-Yields Live mem read max_read pos reads zero start (suc n) s live h fits =
    absurd (omega arith)
split_loop-Yields Live mem read max_read pos reads (suc rounds) start zero s live h fits =
    (s, refl, live)
split_loop-Yields Live mem read max_read pos reads (suc rounds) start (suc n) s live h fits =
    let b = next_batch max_read (suc n) in
    let (pos_b, (le_max, le_n)) = next_batch_bounds max_read n pos in
    let (s', e, live') = reads start b s live pos_b le_max (omega arith) in
    let wrap : (start + b) % 0x1_0000 ≡ start + b = omega arith in
    let (s'', e', live'') =
      split_loop-Yields Live mem read max_read pos reads rounds (start + b) (suc n - b) s' live'
        (omega arith) (omega arith) in
    (
      s'',
      split_loop-suc read max_read rounds start n (start + b) s s' s'' (slice mem start b)
            (slice mem (start + b) (suc n - b)) wrap e e'
          ∙ ap (λ l. (ok l, s''))
              (slice-append mem start b (suc n - b) (start + b) (suc n) refl (omega arith)),
      live'',
    )
