-- ===== src/Lib.antt =====
-- The firmware of a field-oriented motor controller: its diagnostic engine (UDS), its firmware
-- update over that engine, the CAN task that drives both, the cascaded controller of the motor and
-- the open-loop drive that the shell commands.
--
-- Parts of the program, and the files that model them.
--
-- uds-core/src/types.rs and state.rs: Uds/Types, Uds/State. `UdsState` is a record. The statics of
-- the crate (response buffer, reset flags, trouble codes, seed counter), the key masks and the state
-- `W` of the platform form the record `Globals W`, which every operation takes and returns.
--
-- uds-core/src/table.rs: Uds/Config (tables and gates), Uds/Services (0x10, 0x11, 0x22, 0x28, 0x2E,
-- 0x31, 0x3E), Uds/Security (0x27), Uds/Dispatch (0x34, 0x36, 0x37 and `dispatch_sid`). A result of
-- `none` is a panic: of a callback of the platform, of a read of the request past its end, or in the
-- copy of a request longer than the 64-byte buffer. The `aes` and `subtle` crates are the record
-- `Crates`: an arbitrary cipher, and a comparison that is true exactly on equal bytes.
--
-- uds-core/src/pending.rs: Uds/Pending. A continuation is a function on the engine's state and
-- `Globals`; the queue is a list of optional continuations in the `UdsConfig` of a `Machine`.
--
-- uds-core/src/dtc.rs: Uds/Dtc, with its laws in Uds/Dtc/Laws, Uds/Dtc/Clearing and Uds/Dtc/Report.
--
-- Uds/Frames and Uds/Effect sort what a request can do into four kinds, by which Uds/Access,
-- Uds/Sessions and Uds/Queue reason; Uds/Totality is about panics, Uds/Tick about ticks,
-- Uds/Requests about refused requests and Uds/Histories about histories.
--
-- src/drivers/flash.rs: Ota/Flash. The FLASH peripheral is the parameter `FlashDevice`; `Behaves`
-- in Ota/Device is its documented behaviour on erased words and on page erases.
--
-- src/uds/static_config.rs: Platform/Tables, the configuration of the engine whose platform state
-- is the record `Board` of the update handlers' state and of the random generator, a parameter. A
-- callback that borrows a RefCell which the engine holds is a panic. Platform/Updates goes from a
-- request through the queue to the handlers, Platform/Upload through a whole image, Uds/Handshake
-- and Platform/Handshake through SecurityAccess with the platform's seeds, and Platform/Client
-- through a whole session of a tester. Platform/Panics is about the requests that can panic, and
-- Platform/Unarmed, with a module for the services, the queue, a request and whole histories, is
-- about the reset after an update. src/key_store.rs: Platform/Keys, with its laws in
-- Platform/Keys/Laws and Platform/Keys/Reload. src/main.rs, its calls of the key store and its mark
-- of a confirmed boot: Platform/Boot, about it Platform/Boot/Restart.
--
-- src/ota/mod.rs: Ota/Handlers and Ota/Crc, the statics as the record `Ota`; Ota/Transfer,
-- Ota/Commit and Ota/Image follow an image from RequestDownload to TransferExit. Ota/Image calls
-- the handlers directly, as a client of the module would, and not through the engine. Ota/Confined
-- is about the addresses that any sequence of calls touches, on hardware that may fail.
--
-- src/drivers/can/uds_bridge.rs: Can/Bridge, about it Can/Addressing and Can/Stale.
-- src/drivers/can/canopen.rs: Can/Nmt and Can/Task, one turn of `canopen_task` over the bus event
-- that wins the `select`, transmissions as actions; about it Can/Reset and Can/Timeout. Can/Loop is
-- the task from its start, with the ticker of its heartbeat, about it Can/Heartbeat. The task is
-- over any platform that has the flag of the update module's reset, the record `HasReset`.
-- Platform/Bus runs it over the platform's own state: Platform/Bus/Calm and Platform/Bus/Turns are
-- about the parts of a turn, Platform/Bus/Traffic and Platform/Bus/Stored about an image that comes
-- in frames among any other traffic. The function of the CAN crate that builds a frame is the
-- parameter `new_standard`.
--
-- foc-algo/src: Foc/Float is the type of floats, a parameter: the record `Float W` of the
-- operations that the crate uses on `f32`, with `libm::sqrtf`; `IsIeee` states what IEEE 754 says
-- of comparisons and signs, NaN and infinities included, and nothing of rounding. Foc/Math and
-- Foc/Pwm model math/, Foc/Loops models loops/, Foc/State models state.rs and the fields of the
-- controller, Foc/Controller and Foc/Settings model cascade.rs, Foc/Protection models
-- protection.rs, Foc/Weakening models field_weakening.rs, Foc/Gains models motor.rs, and
-- Foc/Observer models observer.rs, with `libm::atan2f` and the remainder as parameters. A result of
-- `none` is a panic of `f32::clamp`, in Foc/Weakening, Foc/Gains and Foc/Settings also of a debug
-- assertion. Foc/Calls has the sequences of calls and of writes to public fields that an
-- application makes. Foc/Total, Foc/Valid, Foc/Chains and Foc/Cycle carry the invariant of the
-- controller through the blocks, the loops and a cycle; Foc/Safety, Foc/Demag and Foc/Align are
-- about whole runs, and Foc/Thermal and Foc/Observing are about whole runs of the thermal limiter
-- and of the observer. A phase of the duty that is NaN is neither below 0 nor above 1, and the code
-- can produce one: its clamp keeps a NaN.
--
-- src/motor, src/tasks/motor.rs, src/drivers/motor_pwm.rs, and the functions of
-- src/shell/commands.rs that write the shared cell: Motor/OpenLoop, Motor/Bridge and Motor/Task.
-- The timer is a record of its master output enable and compare values, the cast of a float to an
-- integer a parameter. Motor/Rounding states what IEEE 754 says of the sums and products of the
-- angle, Motor/Turn is about the loops that wrap it, which have a fuel, and Motor/Gate about whole
-- runs of shell and task.
--
-- src/shell/task.rs: Shell/Line, over a buffer that is a function on indices; Shell/Zipper is a
-- line editor on the lists before and after the cursor, and Shell/Shift, Shell/Refine, Shell/Editor
-- and Shell/Session relate the two. src/shell/commands.rs: Shell/Commands, on lines of ASCII
-- characters; about it Shell/Stop and Shell/Digits. The texts of the answers and the reset of the
-- chip are left out.
--
-- Choices. Bytes and words are natural numbers, with wrap-around written out where the code wraps;
-- a flash word is the list of its eight bytes in memory order. Loops are recursions over the slots,
-- the bytes or the pages, so no fuel is needed but for the loops that wrap an angle, where 2 is
-- enough. The reads of 0x34 and of the update handlers stand behind a check of the length and take
-- 0 past the end, which that check excludes. Logging, delays, critical sections and flash lock keys
-- have no effect in the model.
--
-- Not modelled: the board support, the boot loader and the host scripts.
pub mod Common
pub mod Uds
pub mod Can
pub mod Ota
pub mod Foc
pub mod Motor
pub mod Shell
pub mod Platform
mod Tests
