-- ===== src/Modbus/Collector/Shared/Safe.antt =====
-- What holds of a `Collector` (pkg/modbus/collector.go) under every interleaving of its users.
use mbsscaner.Prelude.{
  ℕ, zero, suc, ◌+◌, ◌≡◌, ◌≢◌, ◌≤◌, refl, sym, ◌∙◌, subst, Bool, true, false, Option, none, some,
  inl, inr, arith,
}
use mbsscaner.Modbus.Result.{no_attempts, open_failed, connection_test_failed}
use mbsscaner.Modbus.Client.{Client}
use mbsscaner.Modbus.Collector.{Collector}
use mbsscaner.Modbus.Collector.Shared.{
  idle, checking, lost, ensured, working, stopping, opening, testing, closing, retrying, Shared,
  Step, looks_alive, looks_lost, alive, dead, mark_lost, already, enter, opens, open_refused,
  test_passes, test_fails, closes, give_up, acquire, use_client, release, stop_enters, stop_closes,
  Reach, here, next, unused,
}
use mbsscaner.Modbus.Collector.Shared.Consistent.{
  IsFresh, in_operation, in_state, attempts_left, FlagIn, HeldBy, IsConsistent, stays, takes, gives,
  some_injective, move-IsConsistent, attempts_at, flag_at, alone_inside,
}

-- An unset flag asks nothing of the count.
absurd_flag : {b : Bool} {n : ℕ} → b ≡ false → b ≡ true → n ≡ 0
absurd_flag off on = absurd (cc (off, on))

-- Nobody holds a mutex that is free.
nobody : {holder : Option ℕ} (i : ℕ) → holder ≡ none → (j : ℕ) → i ≢ j → holder ≢ some j
nobody i free j d k = cc (free, k)

module _ (client : Client) where
  open client use {Conn}

  Step-Keeps :
      {s t : Shared Conn}
      → Step client s t
      → (t.collector.device ≡ s.collector.device)
        × (t.collector.max_retries ≡ s.collector.max_retries)
  Step-Keeps (stop_closes i s h) = (refl, refl)
  Step-Keeps _ = (refl, refl)

  Step-IsConsistent : {s t : Shared Conn} → Step client s t → IsConsistent s → IsConsistent t
  Step-IsConsistent (looks_alive i s h free on) inv =
      move-IsConsistent i idle checking s s.collector s.holder s.state_holder inv h refl stays stays
        inv.fresh (omega arith) tt (inl refl)
  Step-IsConsistent (looks_lost i s h free off) inv =
      move-IsConsistent i idle (retrying s.collector.max_retries no_attempts) s s.collector s.holder
        s.state_holder inv h refl stays stays inv.fresh (omega arith) tt (inl refl)
  Step-IsConsistent (alive i s v w h e) inv =
      move-IsConsistent i checking ensured s (record s.collector { conn = w }) s.holder
        s.state_holder inv h refl stays stays inv.fresh (omega arith) tt (inl refl)
  Step-IsConsistent (dead i s x w h e) inv =
      move-IsConsistent i checking lost s (record s.collector { conn = w }) s.holder s.state_holder
        inv h refl stays stays inv.fresh (omega arith) tt (inl refl)
  Step-IsConsistent (mark_lost i s h free) inv =
      move-IsConsistent i lost (retrying s.collector.max_retries no_attempts) s
        (record s.collector { connected = false }) s.holder s.state_holder inv h refl stays stays
        (λ on. absurd (cc on)) (omega arith) tt (inr (nobody i free))
  Step-IsConsistent (already i n last s h free on) inv =
      move-IsConsistent i (retrying (suc n) last) ensured s s.collector s.holder s.state_holder inv
        h refl stays stays inv.fresh (omega arith) tt (inl refl)
  Step-IsConsistent (enter i n last s h free off) inv =
      let left = attempts_at i (retrying (suc n) last) s inv h in
      move-IsConsistent i (retrying (suc n) last) (opening n) s s.collector s.holder (some i) inv h
        refl stays (takes free) inv.fresh (omega arith) off (inl refl)
  Step-IsConsistent (opens i n s w h e) inv =
      move-IsConsistent i (opening n) (testing n) s (record s.collector { conn = w }) s.holder
        s.state_holder inv h refl stays stays inv.fresh (attempts_at i (opening n) s inv h)
        (flag_at i (opening n) s inv h) (inl refl)
  Step-IsConsistent (open_refused i n s x w h e) inv =
      move-IsConsistent i (opening n) (retrying n (open_failed x)) s
        (record s.collector { conn = w; retry_count = s.collector.retry_count + 1 }) s.holder none
        inv h refl stays gives (absurd_flag (flag_at i (opening n) s inv h))
        (attempts_at i (opening n) s inv h) tt (inl refl)
  Step-IsConsistent (test_passes i n s v w h e) inv =
      move-IsConsistent i (testing n) ensured s
        (record s.collector { conn = w; connected = true; retry_count = 0 }) s.holder none inv h
        refl stays gives (λ on. refl) (omega arith) tt
        (inr (alone_inside i (testing n) s inv h refl))
  Step-IsConsistent (test_fails i n s x w h e) inv =
      move-IsConsistent i (testing n) (closing n x) s (record s.collector { conn = w }) s.holder
        s.state_holder inv h refl stays stays inv.fresh (attempts_at i (testing n) s inv h)
        (flag_at i (testing n) s inv h) (inl refl)
  Step-IsConsistent (closes i n s x h) inv =
      move-IsConsistent i (closing n x) (retrying n (connection_test_failed x)) s
        (record s.collector {
          conn = (client.close_conn s.collector.conn).1;
          retry_count = s.collector.retry_count + 1;
        })
        s.holder none inv h refl stays gives (absurd_flag (flag_at i (closing n x) s inv h))
        (attempts_at i (closing n x) s inv h) tt (inl refl)
  Step-IsConsistent (give_up i last s h) inv =
      move-IsConsistent i (retrying zero last) idle s s.collector s.holder s.state_holder inv h refl
        stays stays inv.fresh (omega arith) tt (inl refl)
  Step-IsConsistent (acquire i s h free) inv =
      move-IsConsistent i ensured working s s.collector (some i) s.state_holder inv h refl
        (takes free) stays inv.fresh (omega arith) tt (inl refl)
  Step-IsConsistent (use_client i s call h) inv = record {
    fresh = inv.fresh;
    operation = inv.operation;
    state = inv.state;
    attempts = inv.attempts;
    flag = inv.flag;
  }
  Step-IsConsistent (release i s h) inv =
      move-IsConsistent i working idle s s.collector none s.state_holder inv h refl gives stays
        inv.fresh (omega arith) tt (inl refl)
  Step-IsConsistent (stop_enters i s h free on) inv =
      move-IsConsistent i idle stopping s s.collector s.holder (some i) inv h refl stays
        (takes free) inv.fresh (omega arith) on (inl refl)
  Step-IsConsistent (stop_closes i s h) inv =
      move-IsConsistent i stopping idle s
        (record s.collector { conn = (client.close_conn s.collector.conn).1; connected = false })
        s.holder none inv h refl stays gives (λ on. absurd (cc on)) (omega arith) tt
        (inr (alone_inside i stopping s inv h refl))

  Reach-IsConsistent : {s t : Shared Conn} → IsConsistent s → Reach client s t → IsConsistent t
  Reach-IsConsistent h here = h
  Reach-IsConsistent h (next r step) = Step-IsConsistent step (Reach-IsConsistent h r)

  Reach-Keeps :
      {s t : Shared Conn}
      → Reach client s t
      → (t.collector.device ≡ s.collector.device)
        × (t.collector.max_retries ≡ s.collector.max_retries)
  Reach-Keeps here = (refl, refl)
  Reach-Keeps (next r step) =
      let (d, m) = Reach-Keeps r in let (e, n) = Step-Keeps step in (e ∙ d, n ∙ m)

  unused-IsConsistent : (c : Collector Conn) → IsFresh c → IsConsistent (unused c)
  unused-IsConsistent c h = record {
    fresh = h;
    operation = λ i. (λ k. cc k, λ k. cc k);
    state = λ i. (λ k. cc k, λ k. cc k);
    attempts = λ i. omega arith;
    flag = λ i. tt;
  }

  -- However the calls of the client and the locked parts of several goroutines interleave, from a
  -- collector whose count of failures is 0 if it is connected: the count is 0 whenever the flag is
  -- set; device and limit stay; no goroutine has more attempts left than the limit; a goroutine holds
  -- `opMutex`, or `stateMutex`, exactly while it is inside, and so two are never inside together; and
  -- the flag is clear all through a `Connect` that goes on to `Open`, and set in a `Disconnect` until
  -- its `Close`.
  pub shared_safe :
      (c : Collector Conn) (t : Shared Conn)
      → IsFresh c
      → Reach client (unused c) t
      → IsFresh t.collector
        × ((t.collector.device ≡ c.device) × (t.collector.max_retries ≡ c.max_retries))
        × ((i : ℕ) → attempts_left (t.phase i) ≤ c.max_retries)
        × ((i : ℕ)
            → HeldBy t.holder i (in_operation (t.phase i))
              × HeldBy t.state_holder i (in_state (t.phase i)))
        × ((i j : ℕ)
            → (in_operation (t.phase i) ≡ true → in_operation (t.phase j) ≡ true → i ≡ j)
              × (in_state (t.phase i) ≡ true → in_state (t.phase j) ≡ true → i ≡ j))
        × ((i : ℕ) → FlagIn (t.phase i) t.collector.connected)
  shared_safe c t f r =
      let (device, limit) = Reach-Keeps r in
      let inv = Reach-IsConsistent (unused-IsConsistent c f) r in
      (
        inv.fresh,
        (device, limit),
        λ i. subst (λ m. attempts_left (t.phase i) ≤ m) limit (inv.attempts i),
        λ i. (inv.operation i, inv.state i),
        λ i j. (
          λ h k. some_injective (sym ((inv.operation i).1 h) ∙ (inv.operation j).1 k),
          λ h k. some_injective (sym ((inv.state i).1 h) ∙ (inv.state j).1 k),
        ),
        inv.flag,
      )
