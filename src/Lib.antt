-- ===== src/Lib.antt =====
-- sump is a shared library that is loaded before SPDK's own. It takes the place of
-- `spdk_bdev_register`, gathers the bdevs that have one uuid under one `ump_bdev`, and sends each
-- I/O of that device over one of its paths; the repository also carries a patched copy of SPDK's
-- NVMe bdev module. This library models sump and the patched parts of that module, and proves what
-- is listed below.
--
-- The parts, and the files that model them:
--
-- * Registration (sump.c, `get_ump_bdev_by_uuid` of sump_util.c): Register.antt, with the bdevs in
--   Bdev.antt and the globals in World.antt. `spdk_bdev_register` searches the list of `ump_bdev`s
--   (`get_ump_bdev_by_uuid`), and builds one (`construct`) or adds a path (`add_bdev`, which also
--   walks over the channels that exist: `add_to_channels`).
-- * Channels (sump_ctrl.c, `ump_bdev_channel_create_cb`, `ump_bdev_channel_destroy_cb`,
--   `ump_io_count_fn`): Channels.antt, with the structures of sump.h in IoPath.antt. SPDK calls
--   `create_cb` when a thread first uses a device, which makes a path for each bdev.
-- * Path selection (sump_ctrl.c, `ump_bdev_find_iopath` and the selectors that it can be built
--   with): Select.antt. A path is named by its place in the list of its channel.
-- * Delay queues (`struct time_queue`, `update_io_time_detail`): TimeQueue.antt.
-- * I/O (sump_data.c; sump_ctrl.c, `ump_bdev_io_completion_cb` and the failback functions):
--   DataPath.antt. `submit_request` asks the selector for a path and wraps the callback of the I/O;
--   `io_completion_cb` is that callback: it records the delay, or takes the path down, starts a
--   prober (`failback`) and submits the I/O again. DataPath/Events.antt runs these as sequences
--   of events. DataPath/Traffic.antt runs them together with the I/O that the bdevs have not completed
--   and with what the callers were told.
-- * The whole device (Device.antt): registration, channels and I/O composed, from the first
--   registration to the first I/O; Device/Added.antt is a path that comes later, and
--   Device/Table.antt the entries of `umplib_fn_table` that hand a call on.
-- * The system (System.antt): registration, channels, I/O, completions, probes and pollers as the
--   steps of one program from its start, in any order, with what holds of every system that they lead
--   to. A step that runs into undefined behaviour leads nowhere; a poller that outlives its channel,
--   which `ump_bdev_channel_destroy_cb` allows, is not modelled.
-- * The NVMe bdev module (nvme/bdev_nvme.c and nvme/bdev_nvme.h): Nvme/Paths.antt is the choice of
--   a path of one bdev, Nvme/Reset.antt the reset, failover and reconnect of one controller,
--   Nvme/Qpairs.antt the walks of that reset over the channels of the controller, which disconnect
--   their queue pairs and create them again, with what is reported in between,
--   Nvme/ResetIo.antt a reset I/O, which resets the controllers of all paths, Nvme/Retry.antt the
--   list of I/O that waits for another attempt, and Nvme/Io.antt one I/O, from its submission to its
--   completion or its next attempt, which uses the choice of a path and the list of retries.
-- * Base.antt and its children are shared helpers: Boolean tests, lists, machine words, loops that
--   search or minimise, and `Outcome`, the result of C code that may run into undefined behaviour
--   or a failed assertion, which is a value here and not left out.
--
-- What SPDK, the C library and the bdev modules answer (allocation, comparison of uuids, clocks,
-- function tables, the real `spdk_bdev_register`) is a parameter: `Env`, `Reply`, `Uuids`, or an
-- argument of the function. Numbers are natural numbers, with the wrap-around of `uint32_t` and
-- `uint64_t` written out where the code can reach it. A frequency of 0 ticks a second is not meant:
-- a division by it gives 0 here.
--
-- Bounds and fuel: the loop of `_bdev_nvme_find_io_path` runs on fuel that is the number of paths,
-- since it visits each of them once. The loop of `ump_find_iopath_random` is driven by the list of
-- numbers that are drawn, since it may go on as long as `rand` does, and so is that of
-- `ump_find_iopath_random_weight_static`, for which the arithmetic of `float` is a parameter. All
-- other loops are recursions over a list.
--
-- Not modelled: output; `BKDR_Hash`, which nothing calls; SPDK's own code, that is nvmf/ and the rest
-- of nvme/, with the building of NVMe commands and the statistics; locks and threads, since each
-- function is one step (the orders of steps are those of System.antt and of Nvme/Qpairs/Run.antt);
-- channels of a controller that are created or destroyed while a reset walks over them.
pub mod Base
pub mod Bdev
pub mod TimeQueue
pub mod IoPath
pub mod Select
pub mod World
pub mod Register
pub mod Channels
pub mod DataPath
pub mod Device
pub mod System
pub mod Nvme
mod Tests
