-- ===== src/Service/Files.antt =====
-- The points files that `Init` and `Start` of pkg/service/service.go load: `LoadPoints` of
-- config/points.go over the rows that the CSV reader returns.
use Prim.Native.Char.{Char}
use mbsscaner.Prelude.{ℕ, ◌≡◌, refl, ◌≢◌, String, List, [], ◌∷◌, Option, none, some, All, lookup}
use mbsscaner.Config.Types.{ModbusDevice, Point}
use mbsscaner.Config.Load.{Parsed, parsed, LoadError, load_points}
use mbsscaner.Config.Load
use mbsscaner.Config.Load.Formed.{IsFormed, load_points-IsFormed}
use mbsscaner.Modbus.Result.{Reply, reply, refused, points_not_loaded}
use mbsscaner.Modbus.Client.{Client}
use mbsscaner.Modbus.Collector.{Collector}
use mbsscaner.Service.{Registry, Polling, with_loaded, with_existing, start}

-- The service only logs which error it was.
abbrev answer : Parsed LoadError (List Point) → Reply (List Point)
answer (parsed points) = reply points
answer (Load.refused e) = refused points_not_loaded

module _ (lower_rune : Char → Char) (parse_float : String → Option ℕ)
    (read_csv : String → Option (List (List String))) where
  unfoldable pub file_points : String → Reply (List Point)
  unfolding load_points
  file_points file = answer (load_points lower_rune parse_float (read_csv file))

  abbrev Formed : Reply (List Point) → Type 0
  Formed (reply points) = All IsFormed points × (points ≢ [])
  Formed (refused e) = Unit

  file_points-Formed : (file : String) → Formed (file_points file)
  unfolding file_points
  file_points-Formed file = answered (load_points lower_rune parse_float (read_csv file)) refl
    where
      answered :
          (r : Parsed LoadError (List Point))
          → load_points lower_rune parse_float (read_csv file) ≡ r
          → Formed (answer r)
      answered (parsed points) e =
          load_points-IsFormed lower_rune parse_float (read_csv file) points e
      answered (Load.refused x) e = tt

  module _ (client : Client) (new_client : ModbusDevice → Reply client.Conn) where
    open client use {Conn}

    -- The points of a goroutine are well-formed, and there are some.
    abbrev pub PollsFormed : Polling Conn → Type 0
    PollsFormed poll = All IsFormed poll.points × (poll.points ≢ [])

    with_loaded-PollsFormed :
        (r : Reply (List Point)) (d : ModbusDevice) (c : Collector Conn)
        (rest : List (Polling Conn))
        → Formed r
        → All PollsFormed rest
        → All PollsFormed (with_loaded client new_client file_points r d c rest)
    with_loaded-PollsFormed (reply points) d c rest h k = (h, k)
    with_loaded-PollsFormed (refused e) d c rest h k = k

    with_existing-PollsFormed :
        (o : Option (Collector Conn)) (d : ModbusDevice) (rest : List (Polling Conn))
        → All PollsFormed rest
        → All PollsFormed (with_existing client new_client file_points o d rest)
    with_existing-PollsFormed none d rest k = k
    with_existing-PollsFormed (some c) d rest k =
        with_loaded-PollsFormed (file_points d.points_file) d c rest
          (file_points-Formed d.points_file) k

    -- Every goroutine that `Start` starts has at least one point, and each of its points has a name,
    -- an address and a length that fit 16 bits, a known data type and a known register type, whatever
    -- the files hold and although `Start` does not validate them.
    pub start-PollsFormed :
        (devices : List ModbusDevice) (s : Registry Conn)
        → All PollsFormed (start client new_client file_points devices s)
    unfolding start
    start-PollsFormed [] s = tt
    start-PollsFormed (d ∷ ds) s =
        with_existing-PollsFormed (lookup d.name s.collectors) d
          (start client new_client file_points ds s) (start-PollsFormed ds s)
