-- ===== src/Modbus/Single/Unset.antt =====
-- A device without a byte order, read one point at a time and in a batch (pkg/modbus/collector.go).
use mbsscaner.Prelude.{ℕ, ◌+◌, ◌*◌, ◌≤◌, ◌≡◌, ap, ◌∙◌, arith, [], ◌∷◌}
use mbsscaner.Config.Types.{DataType, other, big, Point}
use mbsscaner.Modbus.Result.{ok}
use mbsscaner.Modbus.Client.{Client, RegType}
use mbsscaner.Modbus.Words.{IsRegister}
use mbsscaner.Modbus.Batch.{get_modbus_register_type}
use mbsscaner.Modbus.Batch.Serves.{slice, Serves}
use mbsscaner.Modbus.Value.{Value}
use mbsscaner.Modbus.Parse.{parse_registers_for_point, parse_as, device_byte_order}
use mbsscaner.Modbus.ByteOrder.{put_bytes_with_order, get_uint32_with_order}
use mbsscaner.Modbus.ByteOrder.Layout.{read32, unnamed_order_reads_zero}
use mbsscaner.Modbus.Single.{collect_single_point, collect_as, read_uint32}

read32-big :
    (r0 r1 : ℕ) → IsRegister r0 → IsRegister r1 → read32 (r0 ∷ r1 ∷ []) big ≡ r0 * 0x1_0000 + r1
unfolding put_bytes_with_order get_uint32_with_order
read32-big r0 r1 h0 h1 = omega arith

parse_unset :
    (p : Point) (r0 r1 : ℕ)
    → p.data_type ≡ DataType.uint32
    → p.length ≡ 2
    → parse_registers_for_point (other "") p (r0 ∷ r1 ∷ [])
      ≡ ok (Value.uint32 (read32 (r0 ∷ r1 ∷ []) big))
unfolding parse_registers_for_point device_byte_order parse_as
parse_unset p r0 r1 t n = simp (t, n)

module _ (client : Client) (Live : client.Conn → Type 0) (mem : ℕ → ℕ) (reg : RegType)
    (serves : Serves Live 125 mem (λ a n w. client.read_registers a n reg w)) where
  -- On a device that answers and whose byte order is not set, a `uint32` point of a register type,
  -- with two registers within the address space, has two values: read by itself it is 0, whatever
  -- its registers hold; a batch read takes the order as big and parses the number that they hold.
  pub unset_order_reads_zero :
      (p : Point) (w : client.Conn)
      → Live w
      → p.data_type ≡ DataType.uint32
      → p.length ≡ 2
      → get_modbus_register_type p.register_type ≡ ok reg
      → p.address + 2 ≤ 0x1_0000
      → IsRegister (mem p.address)
      → IsRegister (mem (p.address + 1))
      → ((w' : client.Conn) × (collect_single_point client (other "") p w
            ≡ (ok (Value.uint32 0), w')))
        × (parse_registers_for_point (other "") p (slice mem p.address p.length)
            ≡ ok (Value.uint32 (mem p.address * 0x1_0000 + mem (p.address + 1))))
  unfolding collect_single_point collect_as read_uint32
  unset_order_reads_zero p w l t n g b h0 h1 =
      let (w', e, l') = serves p.address 2 w l (omega arith) (omega arith) (omega arith) in
      (
        (
          w',
          rw t (
              simp (g, e)
                (ap (λ v. (ok (Value.uint32 v), w'))
                  (unnamed_order_reads_zero "" (slice mem p.address 2) 0).0)),
        ),
        ap (λ k. parse_registers_for_point (other "") p (slice mem p.address k)) n
            ∙ parse_unset p (mem p.address) (mem (p.address + 1)) t n
            ∙ ap (λ v. ok (Value.uint32 v))
                (read32-big (mem p.address) (mem (p.address + 1)) h0 h1),
      )
