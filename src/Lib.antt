-- ===== src/Lib.antt =====
-- A camera service in C++: a gRPC server that lists the industrial cameras of a host and takes
-- pictures with them. This library models its own code; the paths are those of the repository.
--
-- The parts, from the bottom up:
--
-- - Buffer: `buff_t` of src/utils.cpp, a byte buffer whose pointer is `none` or the bytes of the
--   allocation; Buffer.Array: `array_t` of src/utils.h. malloc is a parameter.
-- - Text, HexDump, Random, Loop: other functions of src/utils.cpp: `to_upper`, `local_stricmp`,
--   `path_join`, `hex_dump`, `rand_int_r`, and `status_t` with the program loop. Decimal is the
--   `%d` of snprintf.
-- - Files: the functions of src/utils.cpp that call the operating system, and `save_file` of
--   src/camera_service.cc; what they call is the record `Os`.
-- - Sdk: the camera SDK, the clock, the sleep and malloc, as a record `Env` of functions on a
--   state `World` that nothing is assumed of. `Sys` is that state with the notes of what was
--   asked of the SDK. Sdk.Laws has the documented behaviour that the theorems rely on. Sdk.Sample
--   is one such SDK, for the tests.
-- - Camera: `CMvCamera` of src/MvCamera.cc, which holds a handle of the SDK; Camera.Forward has
--   the methods that only pass a call on.
-- - Device: `CameraDevice` of src/camera_service.cc, with its camera, two flags and buffers;
--   Device.Picture: `take_picture` and `_to_jpg`.
-- - Provider: `CameraServiceProvider` of src/camera_service.cc, which finds cameras by serial
--   number and keeps the open ones in a map; Provider.Metas: the descriptions of the cameras;
--   Provider.Shared: the shared pointers to the devices, as objects with the number of their
--   owners.
-- - Config: `load_config` of src/camera_service_config.cc, with the YAML library as the record
--   `Yaml`. Main: `main` of src/main.cc, with `init_logs` and `set_log_level` of
--   src/utils-logs.cpp; what it asks of spdlog and of the server is a list of actions.
-- - Grpc: the handlers of src/camera_grpc_server.cc; Grpc.Serving: the server from its start on,
--   as a sequence of calls; Grpc.Threads: the same calls answered by several threads, which take
--   turns; Grpc.Locks: these turns with the mutexes inside of them.
-- - Wire: the messages of src/camera-service.pb.cc, with the protobuf library as the record
--   `Codec`: Wire.Written is what they write and the sizes that they announce, Wire.Stored what
--   the tables of the parsers store; Wire.Laws is what they rely on of the library, and
--   Wire.Sample one such library, for the tests.
--
-- The threads share the provider. A turn of a thread is what it does under one lock of
-- src/camera_service.cc, and what it does before the next lock goes with it; `run` takes the
-- turns in the order of a list, which is any. Grpc.Threads.Owners, Turns, Acts and Schedules
-- count the pointers to each device over all turns, Lone is about a server of one thread,
-- Sequence sets this one beside the calls served one after the other, Advances and Progress count
-- the turns that a call takes, Keyed and Keys are about the keys of the map, Race shows two
-- threads at one device, and Stale two that list the cameras. A call takes at most seven turns.
--
-- In Grpc.Locks a method is a `Code`, which takes a mutex, gives it back, or changes the shared
-- state and goes on with what it read; a step of a thread is one of these, and a thread whose
-- mutex is taken waits. Grpc.Locks.Alone and Held set a code beside the turn that it is the
-- inside of. Order, OnTime, Progress, Deadlock, Fair and Finish are about the order in which the
-- mutexes are taken, the steps that are left, and runs in which every thread gets steps again and
-- again: a call takes at most 41. Writes, Guards, Holds and Exclusion are about what each mutex
-- guards. The new device of `find_or_create_camera_device`, which only its thread knows, has a
-- mutex of its own until it is put into the map.
--
-- A call of the service goes down this list: `GetImage` makes a buffer and calls `take_picture`
-- of the provider, which opens a device or takes one from the map, and this one calls the SDK
-- through its `CMvCamera`. Each operation takes the object and the system and gives the new ones
-- back, with the code that it returns. A failed assertion, an access outside of an allocation or
-- through NULL, a division by zero and an overflow of `int` are values of `Fault`, and an
-- operation that can meet one gives a `Result`. `Returns P r` says that `r` is no fault and
-- satisfies `P`; `Within E P r` that it satisfies `P` or is a fault that `E` allows; `Excused P
-- r` allows the two ends of the process that the program does not prevent, the assertion on the
-- size of the data of a buffer and the division by a counter that has come round after 2 ^ 64
-- pictures.
--
-- Integers of the program are natural numbers with their wrap-around written out, or the ℤ of
-- Base.Int where they are signed. The times of `local_sleep` and of the clock come from `Env`.
-- `lines` of HexDump runs on fuel, the number of bytes, of which each round takes at least one;
-- `digits` of Decimal on the number itself, of which each round leaves a tenth. The retries of
-- `_stop_grapping` are bounded by the counter of the source.
--
-- Not modelled: the messages that are logged; the exceptions of the C++ library where memory runs
-- out, which the handlers answer with CANCELLED: the status of `GetCameraMetas` in the model is
-- that of a run without one, and no result is about it, while the exception of `set_content` for
-- a negative length in `GetImage` is modelled; gRPC, and how it gives calls to its threads; what
-- two threads do at the same time without a lock: the list of the cameras is read in
-- `enum_all_cameras` in one turn, and what a pointer into it leads to when the pointer is found;
-- floating-point averages, kept as integer quotients; unknown fields, arenas, swaps and
-- descriptors of the messages; the generated gRPC files; the libraries under 3rd; events and
-- error texts of Windows.
--
-- In Provider and Grpc.Serving calls follow each other. A device that `find_camera_device_by_sn`
-- gives out then stays in the map, so the model keeps the device in the map and writes it back
-- after each call of a method; in Grpc.Threads the map has pointers, as in the source.
pub mod Base
pub mod Buffer
pub mod Text
pub mod HexDump
pub mod Random
pub mod Loop
pub mod Decimal
pub mod Sdk
pub mod Camera
pub mod Device
pub mod Provider
pub mod Grpc
pub mod Wire
pub mod Files
pub mod Config
pub mod Main
