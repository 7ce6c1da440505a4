-- ===== src/Lib.antt =====
-- NGSM: a Windows service manager that is compatible with NSSM. A service of NGSM is a program that the
-- service control manager starts; its supervisor starts the application, restarts it by a policy, pauses
-- and continues its processes, rotates its logs and runs hooks. A command line, a graphical interface and
-- a privileged broker install, edit, restart and remove services through one crate of operations.
--
-- The parts, and the files that model them (paths below crates/):
--   Core        servicemanager-core: the configuration records (Core/Model for src/model.rs, Core/Events for
--               src/events.rs, Core/Error for src/error.rs), the ownership test of a service
--               (Core/ImagePath for image_path_exe_name and is_managed of src/model.rs), the checks of names
--               and paths (Core/Validate) and the quoting of arguments (Core/Quote) of src/validate.rs, and the
--               expansion of %NAME% (Core/Expansion, and Core/Expansion/Config for
--               resolve_expandable_strings) of src/expansion.rs.
--   Win32       servicemanager-win32: is_running, suspend and resume of a pinned process (Win32/ProcessTree for
--               src/process_tree.rs) over the kernel calls.
--   Registry    servicemanager-registry, all of it from src/imp.rs: the bytes of values and their decoding
--               (Registry/Bytes, Registry/Decode), the text of a multi value (Registry/MultiValue), the names of
--               the values of a service (Registry/NssmKeys, Registry/Names), setting, getting and unsetting one
--               value (Registry/Store, Registry/SingleValue, Registry/Reading), the checks before a write
--               (Registry/Preflight), the exit actions of a file of settings (Registry/ExitActions), the removal
--               of everything that is owned (Registry/Scrub), and the writing and the reading of a whole
--               configuration (Registry/Write, Registry/Read).
--   Broker      servicemanager-broker: the admission of work with the idle shutdown (Broker/Activity) and the
--               frames (Broker/Frames) of src/pipe.rs, and the comparison of tokens (Broker/Token) of
--               src/protocol.rs.
--   Supervisor  servicemanager-supervisor: the control transition with its mutex (Supervisor/Transition for
--               src/transition.rs), the pause control (Supervisor/ProcessControl for
--               src/process_control.rs), the environment of a service (Supervisor/Environment for
--               effective_environment and its helpers in src/lib.rs), the choice of a hook
--               (Supervisor/Hooks for src/hooks.rs), the action after an exit (Supervisor/ExitActions for
--               run_generations of src/lib.rs) and the rotation of a log file (Supervisor/Rotation for
--               rotate and write_some of src/rotation.rs).
--   Ops         servicemanager-ops: the requests (Ops/Specs), editing (Ops/Edit), the exit-action keys and the
--               recovery policy (Ops/ExitKeys, Ops/Recovery for src/recovery.rs), the restart
--               (Ops/Lifecycle for restart_using), the checks before an install (Ops/InstallChecks for
--               src/validate.rs), and the controls and the removal with their guards (Ops/Services for
--               src/helpers.rs, src/lifecycle.rs and src/remove.rs).
--   Gui         servicemanager-gui: the up-intervals and the counts of the dashboard (Gui/Uptime, Gui/Counts
--               for src/metrics.rs).
-- Prelude, Text, Result and Action are what they share: list and Boolean functions, the functions on str and
-- i32, and fallible code without and with a state. Examples holds the tests.
--
-- How they interact. The supervisor runs a pause inside a transition; the pause calls suspend and resume of
-- pinned processes, whose laws (Win32/ProcessTree/Suspension) are the hypotheses of the pause control
-- (Supervisor/ProcessControl/Counts). The operations and the dashboard use the records and the ownership test
-- of Core; what an install accepts of hooks is what Supervisor/Hooks looks for, and the exit codes of a recovery
-- policy are the keys that Supervisor/ExitActions looks for. The operations reach the registry
-- crate through the calls of ConfigBackend, whose preflight and whose writing and reading of a configuration are
-- modelled in Registry. The broker carries out the operations for the graphical interface.
--
-- How state and errors are modelled. A method that mutates takes a state and returns one. A `Result` is a
-- value (Result.antt); a method with a state and a `Result` is an `Act` (Action.antt), whose state comes back
-- beside an error too. Threads that share a transition are sequences of critical sections
-- (Supervisor/Transition/Threads), as are those that share the activity of a broker (Broker/Activity/Runs). What is not code of this repository, or is not modelled, is a record of
-- calls that a module takes as a parameter, with a record of laws: the kernel (Kernel, KernelLaws), the members
-- and the clock of a pause (Environment, Laws), the registry and the native update (ConfigBackend,
-- BackendLaws), the service control manager and its clock (ServiceBackend, RestartBackend, ClockLaws), the file system of a log
-- (RotationIo, RotationLaws), the pipe of the broker (PipeIo, PipeLaws), the calls on keys and values of the Windows registry
-- (RegistryApi, with RegistryLaws and SubkeyLaws), among which are the loops of the enumerations and two calls of
-- src/config_lock.rs, and the strings of the platform (Platform, PlatformLaws).
--
-- Bounds and fuel. The passes of a pause are bounded by 16 in the source, and so they are here. The expansion
-- loop has one round more than the text has characters, since each round takes a percent sign away. The
-- polling loop of a restart has one round more than its timeout has milliseconds, since each round sleeps for
-- one at least. The wait of a transition runs over the rounds that a scheduler gives it.
--
-- Conventions. Text is a list of code points; where the source tests bytes, the characters it looks for are
-- ASCII. A process id stands for a pinned identity. Times are numbers, milliseconds where it matters. An I/O
-- error is its text. A key that is opened is closed when its handle goes out of scope, which is left out. A
-- BTreeMap is the list of its entries in order, a BTreeSet the list of its elements. The field `restart` of a
-- configuration is called `restart_policy`. A counter of work that is 0 stays 0 when work ends; the runs of
-- Broker/Activity/Runs end only work that was admitted.
--
-- Not modelled: the command line, the windows of the graphical interface, the named pipe and the handlers of the
-- broker, the handles and the lock of the registry crate, job objects, the service runtime, the event log, output
-- pumps, the queue of rotations, and the generation loop of the supervisor; they are mostly calls of the operating
-- system, or are left for later.
pub mod Prelude
pub mod Text
pub mod Registry
pub mod Broker
pub mod Result
pub mod Action
pub mod Win32
pub mod Core
pub mod Supervisor
pub mod Ops
pub mod Gui
pub mod Examples
