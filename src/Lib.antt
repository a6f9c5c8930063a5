-- ===== src/Lib.antt =====
-- STM32 automation board: the Modbus server of the firmware, from the bytes on the serial line or in a
-- TCP message to the tables, the board's outputs and the answer; its Modbus master; and its CANopen node.
--
-- Parts and files (paths of the repository in brackets):
--  * Common: the libraries' names, C arrays as lists with out-of-range reads and writes, fixed widths
--    (`% 2 ^ w`), big-endian words, bit operations, counted loops.
--  * Crc: `modbus_crc16` and its tables [src/modbus.c]; Crc.Reference has the bitwise CRC-16/MODBUS.
--  * Framer: the assembly of RTU frames from received bytes, T1.5 and T3.5 [src/rtu_framer.c, and
--    `modbus_rtu_timeouts_us` of src/modbus.c]. A step takes the SysTick readings it makes as arguments.
--    Framer.Events has the bytes, ticks and polls of a framer in any order, Framer.Phases and
--    Framer.Busy what they do while a frame waits, at rest and while a frame is received.
--  * Event: the comm event counter and log, function codes 0x0B and 0x0C [src/modbus_event.c].
--  * Diag: the counters, listen-only mode and function code 0x08 [src/modbus_diag.c].
--  * Board: the state functions that the server calls [src/digital_io.c, src/relay.c,
--    src/analog_io.c].
--  * Store: the bit and register tables and the range check; Server: the statics of src/modbus.c in one
--    record, the sync hooks, initialisation, FIFO push and the register API.
--  * Fc: one function for each function code of `modbus_pdu_process` [src/modbus.c]. Fc.Reads has 0x01
--    to 0x04 and 0x07, Fc.Writes 0x05, 0x06, 0x0F, 0x10, 0x16 and 0x17, Fc.Files 0x14 and 0x15, Fc.Info
--    0x11, 0x18 and 0x2B.
--  * Pdu: the switch over function codes, and the broadcast filter.
--  * Rtu: `modbus_rtu_process` [src/modbus.c]; Tcp: `modbus_tcp_process` [src/modbus_tcp.c].
--  * Master: `modbus_master_transaction` and the statics of src/modbus_master.c. Master.Build has the
--    builders of requests, Master.Parse the parsers of responses, Master.Api the API functions. In
--    Master.Line the other end of the transport is the station that Rtu models, in Master.Broadcast every
--    station hears the request.
--  * Canopen: the node, its initialisation, its tick and the dispatch of frames [src/canopen/canopen.c].
--    Canopen.Types has frames, dictionaries and callbacks [inc/canopen], Canopen.Dictionary the engine
--    and Canopen.Board the default contents [src/canopen/canopen_od.c], Canopen.Network NMT and heartbeat
--    [src/canopen/canopen_nmt.c], Canopen.Service the SDO server [src/canopen/canopen_sdo.c],
--    Canopen.Process the PDO engine [src/canopen/canopen_pdo.c].
--  * Port: the RS485 port as it is shared by server and master: the waiting flag and the latched frame
--    [src/modbus_master_rtu.c], interrupt, send and poll [src/rs485.c] and the callback [src/main.c].
--  * App: the hooks that carry inputs and outputs between CANopen and the board [src/main.c];
--    Board.Inputs: the debouncing of the digital inputs [src/digital_io.c].
--  * Tests: a device after initialisation, and the theorems at concrete requests.
--
-- How they interact: the framer hands a frame to Rtu, which checks the CRC and the address, counts the
-- message in Diag, and gives 0x08 to Diag, 0x0B and 0x0C to Event, 0x11 to Fc.Info and all else to Pdu;
-- Tcp gives everything to Pdu. Pdu calls Fc, which changes the tables of Server and runs the sync: the
-- application's callback if one is registered, or the board's own, which drives Board.
--
-- The master builds a request, sends it through the functions of its transport, checks the frame that
-- comes back, and parses the response. The CANopen node gives a frame to NMT, SDO or PDO by its COB-ID;
-- SDO and PDO work on the same objects, and tell the application what was written.
--
-- How the code is rendered: a request is the list of its bytes, and an answer is the list of the bytes
-- that the code puts into its buffer, none where it returns the length 0. A function that changes
-- statics takes the record of them and gives the new one. The callbacks of the application are functions
-- on the server's state, a parameter (`Hooks`); theorems that need it assume that they keep the state
-- valid (`IsSafe`), which the board's own sync does. Null pointers are not modelled: every buffer is
-- there, and so is every output; what the master's outputs hold after a failed parse is not described.
-- The transport of the master is a record of functions on the state of the bus, a parameter, whose laws
-- `IsLine` states where a theorem needs the other end. The bus, the write callback and the hooks of
-- CANopen are functions on a `World`, the dictionary and the application's state, also a parameter; a
-- pointer into the dictionary is the bytes of its object there. A function of the framer is one
-- definition; what an interrupt may come between is in Framer.Interleaved: its steps are the sections
-- with interrupts masked, the interrupt of the UART, which the tick does not preempt, and else each
-- assignment by itself.
--
-- Loops and fuel: the counted loops are recursions on their count. The `while` loop of 0x15 runs on
-- fuel, `length rx_pdu`; each round that goes on moves at least nine bytes on, and the theorem on
-- `write_records` shows that the fuel is enough. A segmented upload of CANopen is a round for each
-- segment, one for every seven bytes. The wait of `master_rtu_recv` is a recursion on the passes of its
-- loop, each with the interrupts in it. The loop of `rtu_framer_delay_t35` only reads the clock and is
-- left out.
--
-- Not modelled: the set-up of clocks, pins and peripherals and the polling loop [src/main.c], the
-- registers behind the HAL [src/rs485.c, src/rs232.c, src/can_driver.c, src/ethernet.c], which are
-- hardware access, the master's demonstration in src/main.c, and the float conversions of
-- src/analog_io.c. The calls of the HAL that the modelled code makes are parameters (`Driver`,
-- `Periphery`).
pub mod Common
pub mod Crc
pub mod Event
pub mod Diag
pub mod Board
pub mod Store
pub mod Server
pub mod Fc
pub mod Pdu
pub mod Rtu
pub mod Tcp
pub mod Framer
pub mod Canopen
pub mod Master
pub mod Port
pub mod App
pub mod Tests
