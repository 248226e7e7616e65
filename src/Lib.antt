-- ===== src/Lib.antt =====
-- The verification library of mbsscaner, a service that polls Modbus devices and publishes the
-- values of their points.
--
-- The program: a configuration names devices, and a file of points for each. For each device a
-- `Collector` keeps a connection; at every tick `CollectPoints` groups the device's points into
-- runs of adjacent registers, reads each run, and decodes and scales the values, which the Kafka
-- producer publishes. The `CollectorManager` knows the collector and the point of every name; the
-- HTTP server's handlers write and read single points through it.
--
-- Parts of the program, and the files that model them:
--   config/points.go                      Config/Types: `DataType`, `RegisterType`, `Point`;
--                                         Config/Points: `ValidatePoints`;
--                                         Config/Load: `LoadPoints`, over Config/Text (strings,
--                                         strconv)
--   config/config.go                      Config/Types: `ByteOrder`, `ModbusDevice`;
--                                         Config/Settings: `Config`, `Validate`;
--                                         Service/Launched: `LoadConfig`
--   pkg/modbus/byteorder.go               Modbus/ByteOrder, over Modbus/Words (encoding/binary)
--   pkg/modbus/converter.go               Modbus/Convert, over Modbus/Value (dynamic values)
--   pkg/modbus/collector.go               Modbus/Collector: `Connect`, `ensureConnected`;
--                                         Modbus/Collector/Shared: several users of one collector;
--                                         Modbus/Methods: the byte-order methods;
--                                         Modbus/Grouping: `groupPointsByRegisterType`;
--                                         Modbus/Batch: `readBatch` and what it calls;
--                                         Modbus/Parse: `parseRegistersForPoint`, scaling;
--                                         Modbus/Collect: `CollectPoints`;
--                                         Modbus/Single: `ReadSinglePoint`;
--                                         Modbus/Write: `WritePoint`
--   pkg/modbus/collector_manager.go       Modbus/Manager
--   pkg/modbus/point_cache.go             Modbus/Cache
--   pkg/http/server.go                    Http: the handlers; Http/Server: its start and stop
--   pkg/kafka/producer.go                 Kafka: `SendPointValues`; Kafka/Producer: `NewProducer`,
--                                         `Stop`
--   pkg/service/service.go                Service: `Init` of the devices, what `Start` polls;
--                                         Service/Lifecycle: the rest of `Init`, `Stop`;
--                                         Service/Polled: `startCollector`, `collectDeviceData`;
--                                         Service/System: goroutines and handlers in any order;
--                                         Service/Files: its calls of `LoadPoints`;
--                                         Service/Launched: `NewService`, `RunAsService`
--   pkg/logger/logger.go                  Logger
--   main.go                               Service/Launched: `main`
-- A function keeps its name in the spelling of this library (`readBatch` is `read_batch`); what
-- follows a call inside a function is a function of its own (`after_read`). The modules below a
-- file hold its theorems. Tests holds the theorems at concrete inputs and runs of the models.
--
-- Code that acts on a connection or another state takes the state and returns a result with the new
-- state (Modbus/Result): a value, an error, or a run-time panic. Numbers are natural numbers with
-- the wrap-around of uint16 written out; signed integers are mathematical integers, with the two's
-- complement pattern of each width (Prelude/Int). Floats are their bit patterns.
--
-- Parameters, for code outside the repository: the Modbus library (`Client`), float arithmetic and
-- conversions (`Floats`), `strconv.ParseFloat`, `unicode.ToLower` beyond ASCII, the rows of the CSV
-- reader, the TOML decoder, the file system and `NewClient` (`Host`), encoding/json and the Kafka
-- library (`Broker`), the web listener, and what the web library bound of a request. What the
-- theorems rely on of a device is named in `Device`, `Storage`, `Honest` and the predicates of
-- Modbus/Batch/Serves: calls within the protocol's limits are answered with the device's registers,
-- or, for `Honest`, an answer has as many values as were asked for.
--
-- Bounds: the loop over sub-batches has the length that remains as its rounds, which falls by at
-- least one in each; the sort has one round for each index; the loop of `ensureConnected` has the
-- retry limit; all other recursions are on lists or numbers.
--
-- Not modelled: log lines, time stamps, pauses, and statistics; the options of the library client;
-- the reading of the CSV and TOML text; the headers of a Kafka message; the wait in `Stop` for the
-- goroutines. Locks are modelled in Modbus/Collector/Shared alone, where a step ends before each
-- lock and each call of the client, so that `Connect` is several steps; elsewhere an operation is
-- one step. A slice of registers past its end panics here; Go allows it up to the capacity of the
-- slice.
pub mod Prelude
pub mod Config
pub mod Modbus
pub mod Http
pub mod Kafka
pub mod Service
pub mod Logger
mod Tests
