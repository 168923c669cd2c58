-- ===== src/Lib.antt =====
-- Verification of the OpenPRoT boot orchestrator, of its MCTP and I2C services, and of its software
-- mailbox.
--
-- The eRoT boots the components of a platform in the order of a chain: it verifies the image of
-- each while the component is held in reset, releases it, watches it come up, recovers it or takes
-- it out of service, and locks the platform down when that is all that is left. Its services talk
-- to each other over channels, and a host talks to it through a mailbox. These parts are modelled.
--
-- services/orchestrator/sm, the state machine. It takes events, keeps a status for every component,
-- and emits effects. `Sm.Model` is src/model.rs: components, events, effects, states, and
-- `Chain::try_from`. `Sm.Rot` is the storage `Rot` of src/lib.rs with the methods that the handlers
-- share, `Sm.Gating` the methods that take components out of service (`gate_by_policy`,
-- `cascade_hold`, `handle_corruption`, `exhaust_recovery`), `Sm.Handlers` the handlers of the
-- states, the supervising handler and the entry actions, `Sm.Engine` the sink, `Orchestrator::step`
-- and `dispatch_with`. `Sm.Lifecycle` is what the machine promises of one component: an automaton on
-- the effects. The other children of `Sm` prove: `Walk` the search along the chain, `Invariant` what
-- holds between events, `Budget` how many effects a step has, `Trace` histories of events, `Boot`
-- the boot of a chain whose images pass, `Release` what lets a component out of reset, `Isolation`,
-- `Locked`, and `Failure` for `dispatch_with`.
--
-- services/orchestrator/driver, the driver that carries out the effects and feeds events back.
-- `Driver` is `PlatformDriver` of src/driver.rs; `Driver.Wiring` is src/board.rs and the traits of
-- services/orchestrator/capabilities: what a board supplies is a record of states and operations, of
-- which nothing is assumed. `Driver.Verdicts` is about verification and the anti-rollback floor,
-- `Driver.Walks` about `poll_boot_walks`.
--
-- services/orchestrator/timer, the watchdogs whose expiry the runtime turns into events. `Timer` is
-- `TimerManager`, and `Watchdogs` is `BootWatchdogs` of services/orchestrator/server/src/runtime.rs,
-- which puts them on the kernel's clock, with `Watchdogs.Drain`; `Timer.Armed` says which deadlines
-- are armed, `Timer.Arming` and `Timer.Nearest` are about its operations.
--
-- services/orchestrator/adapters/walk, a `BootWatch` that walks a device's boot checkpoints.
-- `Checkpoints` is `CheckpointWalk`, over any reader; `Checkpoints.Order` and `Checkpoints.Windows`
-- are about what a walk has read when it completes, and when it ends.
--
-- `System` is `Orchestrator::dispatch`, which runs the state machine on the driver, and
-- `System.Recovery` is about the two together.
--
-- services/mctp, the service through which the programs of the firmware exchange MCTP messages.
-- `Mctp` is what api/src/lib.rs declares; `Mctp.Wire` is api/src/wire.rs, with the requests, the
-- responses and the buffers they are written to, and `Mctp.Wire.RoundTrip` decodes what was
-- encoded. `Mctp.Stack` is the stack below the server, `Mctp.Server` is server/src/server.rs, and
-- `Mctp.Server.Dispatch` is server/src/dispatch.rs. `Mctp.Client` is client-ipc/src/lib.rs.
-- `Mctp.Remote` puts a client on a server behind a channel, which answers a request at a time as
-- the firmware's loop does; its children compare that with the server called directly. The router
-- of the crate mctp-lib and the map of the crate heapless are parameters: a record of states and
-- operations, with the documented laws of a map that holds at most one value for a key.
--
-- services/i2c, the service that owns the I2C buses. `I2c` is api/src/protocol.rs and the error
-- kinds of api/src/seam.rs; `I2c.Server` is `dispatch` of server/src/lib.rs, over a bus that is a
-- parameter, and `I2c.Client` is `transact` of client/src/lib.rs. `I2c.Loopback` is
-- server/src/loopback.rs, which puts the two together, with `I2c.Requests` and `I2c.Responses`;
-- `I2c.Answers`, with `I2c.Passes`, is about requests of any bytes. `I2c.Runtime` is what
-- server-runtime/src/lib.rs and server/src/slave.rs do with an interrupt and with a request, over a
-- driver that is a parameter, `I2c.Runtime.Latch` is about its latch and its signal, `I2c.Slave`
-- the target mode of the client, and `I2c.Slave.Fetching`, with `I2c.Slave.Unpacking`, puts these
-- two together, over a channel that delivers requests and responses.
--
-- target/ast10x0/pfr/swmbx_ctrl.rs, the registers that the host and the eRoT share. `Swmbx` holds
-- the data, the FIFO, and the mapped region; `Swmbx.Setup` the operations that configure the
-- mailbox, `Swmbx.Access` the transactions of a port and the software's own access.
-- `Swmbx.Operations` lists both as steps; `Swmbx.Invariant` and `Swmbx.Reachable` are about every
-- state that is reached, `Swmbx.Protection` and `Swmbx.Ports` about what the host behind one port
-- cannot touch, `Swmbx.Fifo` and `Swmbx.Transfer` about values sent through a FIFO, `Swmbx.Bitmap`
-- about the protection bitmap.
--
-- State is passed explicitly. A method of `Rot` that also has the sink is a function from the
-- storage to the new storage, the effects it appends, and its result; `step` pushes the effects into
-- a sink of capacity E, where a push beyond the capacity is lost. Numbers are natural numbers: the
-- cursor is reduced modulo 256 where the source casts to `u8`, the retry count saturates at 255, and
-- ids, which are wrapped bytes, are only compared. The const parameters N and E are fields.
-- `cascade_hold` loops over a frontier of capacity N, and its loop has N rounds of fuel, which is
-- enough since no component enters the frontier twice. `dispatch_with` has a fuel parameter, since
-- an executor that feeds events back for ever keeps the source's loop going; after a failure 10
-- rounds are enough, as the queue has 8 places. A buffer is the list of its bytes; the mailbox's arrays
-- are functions of the index, its mapped region a function of the offset, and the capacity of its
-- queues a parameter.
--
-- Not modelled: the panics on an index or a slice out of range, which the invariants exclude or
-- which read as an absent entry; `Display` and `Debug`; the system calls of the runtimes that
-- connect the parts; and every other service, driver and target of the repository.
pub mod Prelude
pub mod Sm
pub mod Timer
pub mod Watchdogs
pub mod Driver
pub mod System
pub mod Checkpoints
pub mod I2c
pub mod Mctp
pub mod Swmbx
