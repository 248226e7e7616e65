-- ===== src/Modbus/Batch/Fallback.antt =====
-- `readBatchIndividual` (pkg/modbus/collector.go), to which a group's read falls back.
use mbsscaner.Prelude.{
  ℕ, zero, suc, ◌+◌, ◌-◌, ◌%◌, ◌≤◌, ◌<◌, ◌≡◌, refl, List, [], ◌∷◌, ◌++◌, arith, le→ltb, ap, sym,
  ◌∙◌, ◌⊎◌, inl, inr,
}
use mbsscaner.Config.Types.{RegisterType, Point}
use mbsscaner.Modbus.Grouping.{BatchGroup}
use mbsscaner.Modbus.Grouping.Runs.{Run, Run-le, IsRun}
use mbsscaner.Modbus.Result.{Reply, reply, refused, ok, err, Error, call, unsupported_register_type}
use mbsscaner.Modbus.Client.{Client, RegType, input, holding}
use mbsscaner.Modbus.Batch.{
  read_each, read_points, read_batch_individual, read_batch, read_batch_as,
  get_modbus_register_type,
}
use mbsscaner.Modbus.Batch.Serves.{slice, slice-append, ServesOne, Yields}

read_each-suc :
    {S : Type 0} (f : ℕ → S → Reply ℕ × S) (n a next v : ℕ) (vs : List ℕ) (s s' s'' : S)
    → (a + 1) % 0x1_0000 ≡ next
    → f a s ≡ (reply v, s')
    → read_each (λ i. call (f i)) n next s' ≡ (ok vs, s'')
    → read_each (λ i. call (f i)) (suc n) a s ≡ (ok (v ∷ vs), s'')
unfolding read_each
read_each-suc f n a next v vs s s' s'' w e e' = rw e (rw w (rw e'))

-- A point's registers, one call each.
read_each-Yields :
    {S : Type 0} (Live : S → Type 0) (mem : ℕ → ℕ) (f : ℕ → S → Reply ℕ × S)
    → ServesOne Live mem f
    → (n a : ℕ) (s : S) → Live s
    → a + n < 0x1_0000
    → Yields Live (slice mem a n) (read_each (λ i. call (f i)) n a s)
unfolding read_each
read_each-Yields Live mem f serves zero a s live fits = (s, refl, live)
read_each-Yields Live mem f serves (suc n) a s live fits =
    let (s', e, live') = serves a s live (omega arith) in
    let next : (a + 1) % 0x1_0000 ≡ a + 1 = omega arith in
    let (s'', e', live'') = read_each-Yields Live mem f serves n (a + 1) s' live' (omega arith) in
    (s'', read_each-suc f n a (a + 1) (mem a) _ s s' s'' next e e', live'')

module _ (client : Client) (Live : client.Conn → Type 0) (mem : ℕ → ℕ) (reg_type : RegType)
    (serves : ServesOne Live mem λ a. client.read_register a reg_type) where
  read_points-cons :
      (p : Point) (ps : List Point) (regs rest : List ℕ) (s s' s'' : client.Conn)
      → read_each (λ i. call (client.read_register i reg_type)) p.length p.address s ≡ (ok regs, s')
      → read_points client reg_type ps s' ≡ (ok rest, s'')
      → read_points client reg_type (p ∷ ps) s ≡ (ok (regs ++ rest), s'')
  unfolding read_points
  read_points-cons p ps regs rest s s' s'' e e' = rw e (rw e')

  read_points-Yields :
      (t : RegisterType) (ps : List Point) (a n e : ℕ) (s : client.Conn)
      → Run t a ps e
      → a + n ≡ e
      → e < 0x1_0000
      → Live s
      → Yields Live (slice mem a n) (read_points client reg_type ps s)
  unfolding read_points
  read_points-Yields t [] a zero e s r k fits live = (s, refl, live)
  read_points-Yields t [] a (suc n) e s r k fits live = absurd (omega arith)
  read_points-Yields t (p ∷ ps) a n e s r k fits live =
      let long_enough : a + p.length ≤ e = Run-le t (a + p.length) ps e r.3 in
      let (s', f, live') =
        read_each-Yields Live mem (λ i. client.read_register i reg_type) serves p.length a s live
          (omega arith) in
      let (s'', f', live'') =
        read_points-Yields t ps (a + p.length) (n - p.length) e s' r.3 (omega arith) fits live' in
      (
        s'',
        read_points-cons p ps _ _ s s' s'' (rw r.1 f) f'
            ∙ ap (λ l. (ok l, s''))
                (slice-append mem a p.length (n - p.length) (a + p.length) n refl (omega arith)),
        live'',
      )

read_batch_individual_unsupported :
    (client : Client) (g : BatchGroup) (e : Error) (s : client.Conn)
    → get_modbus_register_type g.register_type ≡ err e
    → read_batch_individual client g s ≡ (err e, s)
unfolding read_batch_individual
read_batch_individual_unsupported client g e s h = rw h

-- If the one read of a short group of coils or discrete inputs is refused, the fallback never
-- reads a point: the group fails with an error about its register type, whatever the device would
-- answer, and the library's error is lost.
pub bit_fallback_fails :
    (client : Client) (g : BatchGroup) (e : Error) (s s' : client.Conn)
    → g.total_length ≤ 2000
    → ((g.register_type ≡ RegisterType.coil)
        × (client.read_coils g.start_address g.total_length s ≡ (refused e, s')))
      ⊎ ((g.register_type ≡ RegisterType.discrete_input)
          × (client.read_discrete_inputs g.start_address g.total_length s ≡ (refused e, s')))
    → read_batch client g s ≡ (err (unsupported_register_type g.register_type), s')
unfolding read_batch get_modbus_register_type
bit_fallback_fails client g e s s' short (inl (t, r)) =
    ap (λ u. read_batch_as client u g s) t
    ∙ rw (le→ltb 2000 g.total_length short) (
        rw r (
          read_batch_individual_unsupported client g _ s'
            (ap get_modbus_register_type t ∙ ap (λ u. err (unsupported_register_type u)) (sym t))))
bit_fallback_fails client g e s s' short (inr (t, r)) =
    ap (λ u. read_batch_as client u g s) t
    ∙ rw (le→ltb 2000 g.total_length short) (
        rw r (
          read_batch_individual_unsupported client g _ s'
            (ap get_modbus_register_type t ∙ ap (λ u. err (unsupported_register_type u)) (sym t))))

module _ (client : Client) (Live : client.Conn → Type 0) (mem : ℕ → ℕ) (reg_type : RegType)
    (serves : ServesOne Live mem λ a. client.read_register a reg_type) where
  read_batch_individual-Yields :
      (g : BatchGroup) (s : client.Conn)
      → get_modbus_register_type g.register_type ≡ ok reg_type
      → IsRun g
      → Live s
      → Yields Live (slice mem g.start_address g.total_length) (read_batch_individual client g s)
  unfolding read_batch_individual
  read_batch_individual-Yields g s k r live = rw k (
      read_points-Yields client Live mem reg_type serves g.register_type g.points g.start_address
        g.total_length (g.start_address + g.total_length) s r.run refl r.in_range live)

  fallback_as :
      (t : RegisterType) (g : BatchGroup) (e : Error) (s s' : client.Conn)
      → get_modbus_register_type t ≡ ok reg_type
      → g.total_length ≤ 123
      → client.read_registers g.start_address g.total_length reg_type s ≡ (refused e, s')
      → read_batch_as client t g s ≡ read_batch_individual client g s'
  unfolding get_modbus_register_type read_batch_as
  fallback_as RegisterType.input_register g e s s' k short r =
      let same : reg_type ≡ input = cc in
      rw (le→ltb 125 g.total_length (omega arith)) (rw (← same) (rw r))
  fallback_as RegisterType.holding_register g e s s' k short r =
      let same : reg_type ≡ holding = cc in
      rw (le→ltb 123 g.total_length short) (rw (← same) (rw r))
  fallback_as RegisterType.coil g e s s' k short r = cc
  fallback_as RegisterType.discrete_input g e s s' k short r = cc
  fallback_as (RegisterType.other u) g e s s' k short r = cc

  -- If the one read of a short run of input or holding registers is refused, but the device
  -- answers reads of single registers, the fallback returns the same registers that the one read
  -- would have: the contents of the run, in the order of its addresses.
  pub register_fallback-Yields :
      (g : BatchGroup) (e : Error) (s s' : client.Conn)
      → get_modbus_register_type g.register_type ≡ ok reg_type
      → IsRun g
      → g.total_length ≤ 123
      → client.read_registers g.start_address g.total_length reg_type s ≡ (refused e, s')
      → Live s'
      → Yields Live (slice mem g.start_address g.total_length) (read_batch client g s)
  unfolding read_batch
  register_fallback-Yields g e s s' k r short refuses live =
      rw (fallback_as g.register_type g e s s' k short refuses)
        (read_batch_individual-Yields g s' k r live)
