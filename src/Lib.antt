-- ===== src/Lib.antt =====
-- libdronecan: a library that carries DroneCAN frames between cores, interfaces and files, over a
-- platform abstraction layer (PAL) with backends for Posix, ChibiOS, ArduPilot and none.
--
-- Parts and files. Paths of the code are from the repository's root.
--
--   Prelude            Boolean tests on the native numbers, lists indexed by them, masks as sets of
--                      bits, signed integers; no code of the repository.
--   DataIface          DC_DataIface. Frame is the frame type of libcanard, as far as it is used.
--     Base             DataIface_Backend.h: the receive callbacks of an interface, the default send.
--     Raw              DataIface_Raw.h, .cpp: `RawIface::Buffer`. A ring is a record of its bytes and
--                      indices; available, advance, txspace, pushbyte, reset, push, peekbyte and pop
--                      have the names of the code. Raw/Contents gives the unread bytes as a list,
--                      Raw/Push, Raw/Pop, Raw/RoundTrip and Raw/Resync are about the calls,
--                      Raw/Ahead is about the byte behind a frame, Raw/Keep about what every
--                      call keeps.
--     LogFile          DataIface_LogFile.h, .cpp: crc32, send, update_rx, init. A file is a parameter,
--                      `read` and `write` on some state; LogFile/Codec states as `IsFile` what a file
--                      in good order does, and has the bytes of an entry. LogFile/Replay and
--                      LogFile/Cut run over whole logs, LogFile/Crc, LogFile/Burst and
--                      LogFile/Serial are about the checksum.
--     ShMem            DataIface_ShMem.h, .cpp: init, send and the loop of update_rx, over two rings
--                      of Raw. ShMem/Drain joins that loop to the router; ShMem/Reach has the
--                      sequences of what the cores send and receive.
--     HwSemaphore      DataIface_ShMem.cpp: the loop of the constructor of HWSemaphore. The hardware is a
--                      parameter.
--                      HwSemaphore/Turns has the constructor and the destructor reading by reading,
--                      for threads whose turns come in any order.
--     Interrupts       DataIface_ShMem.cpp: constructor and destructor of HWSemaphore, sem_free_it,
--                      signal_rx, a round of update_rx. Registers and events are the parameter `Hsem`.
--     ArduPilot        DataIface_ArduPilot.h, .cpp: init, send, update_rx, wait_rx. AP_HAL and the length
--                      tables of libcanard are the parameter `Hal`.
--   Pal                DC_PAL. Links has what is common to lists by `next` pointers: a pointer is a
--                      number, the heap's `next` members are a function, and a run returns, reads
--                      through null, has used up its rounds, or is stopped by an assertion.
--     ObjList          List.h: add, remove, get, constructor, destructor, iterator.
--     Callbacks        Callbacks.h: register_cb, unregister_cb, call_all; Callbacks/History has
--                      sequences of calls.
--     Can              CAN.h: register_cb and unregister_cb of a port, `can_` before the names.
--     Worker           Worker.h, Worker.cpp: register_worker, unregister_worker, ~Worker,
--                      get_next_trigger_us, the objects' operator() and a round of `run`;
--                      Worker/Timer goes from the timeout of one round to the pass of the next,
--                      Worker/Rounds is about many passes.
--     EventMask        Threads.h: `events`, the mask of some events.
--     FileSystem       FileSystem.h: the root path.
--   Posix              DC_PAL_Posix.
--     Events           Threads.cpp, DC_PAL/Threads.h: signal, register_evt, unregister_evt, wait_any,
--                      wait_all, wait. What other threads do until the waiting thread
--                      can have the semaphore again is a list of operations; the thread wakes if
--                      `cond` was signalled then, or by its timeout. Events/Owners has the runs
--                      of all these calls, as a relation, with the events that each run hands out.
--     Thread           Threads.cpp: Thread::start, ~Thread, Threads::start, set_priority. The calls of
--                      pthread are one parameter, `call`; a failed assertion stops the program
--                      unless the build has NDEBUG.
--     Threads          Threads.cpp: the class Threads, with the list of all threads (ObjList) and the
--                      memory of each; malloc, free and the calls are the parameter `Platform`.
--     WorkerRun        DC_PAL/Worker.cpp: `run`, round by round, on the events of its thread.
--     WorkerLife       DC_PAL/Worker.h, Worker.cpp: start, ~Worker, ~WorkerObject on such threads.
--     Semaphore        Semaphore.cpp, DC_PAL/Semaphore_Abstract.h: take, give, WITH_SEMAPHORE, and the
--                      substitute for pthread_mutex_timedlock. The mutex and the clock are parameters.
--     FileSystem       FileSystem.cpp: open, close and the calls on a file, over the parameter `System`.
--     Deadline         Threads.cpp, Utils.cpp: the time until which a wait lasts, and micros64.
--   ChibiOs/Clock      DC_PAL_ChibiOS/Utils.cpp: micros32, micros64.
--   ChibiOs/Usb        DC_PAL_ChibiOS/cfg_stm32h7xx/usbcfg.c: descriptors, get_descriptor, usb_event. The
--                      macros and constants of ChibiOS are parameters.
--   ChibiOs/Board      DC_PAL_ChibiOS/cfg_stm32h7xx/board.c, and the one of cfg_stm32h7xx_m4:
--                      __early_init, whose loops wait for the flash on fuel; Board/Flash states as
--                      `IsFlash` what the manual says of the registers. Board/Steps and Board/Program
--                      follow a run, Board/Laws a run and the next boot.
--   ArduPilot/FileSystem  DC_PAL_ArduPilot/FileSystem.cpp: the same over AP::FS(), a parameter.
--   Empty              DC_PAL_Empty: files, CAN and serial ports that do nothing; Empty/LogFile is
--                      the log file interface on such files.
--   Router             DC_Router/router.h, router.cpp: the constructor of RouterInterface,
--                      add_interface and route_frame.
--   Bridge             Shared memory, router and log file in a row, by the list of callbacks.
--
-- How they interact: a data interface hands a received frame to its callbacks (Callbacks), the router
-- among them, which sends it on the other interfaces (Router); frames between two cores pass through
-- a ring in shared memory (Raw, ShMem, ShMem/Drain). A worker has a thread of the list of all threads
-- (WorkerLife, Threads), which waits for the events of its objects (WorkerRun, Events) until the trigger
-- time of the earliest periodic one, by the clock of the platform.
--
-- Bounds and fuel. `size_t` is 32 bits wide, masks are below 2^32, times in microseconds are taken
-- modulo 2^64, and wrap-around is written out. A loop along `next` pointers or through a file runs
-- on a number of rounds; the theorems that say what such a call returns say that it does return, for
-- every number of rounds above the length of the list, or above the number of bytes skipped.
-- `out_of_fuel` for every number of rounds is a loop that never ends. A copy into
-- the array of a frame that is longer than the array is seen by the list growing: there the program
-- writes to memory that is not the array's.
--
-- Not modelled: the serial ports, which only pass arguments on or are commented out; the
-- configuration headers and board.h, after ChibiOS's templates; singletons, and
-- assertions of true; the commented-out and unfinished backends. Where a member runs under a
-- semaphore, it is one step; Posix/Semaphore says what the semaphore itself does.
pub mod Prelude
pub mod DataIface
pub mod Pal
pub mod Posix
pub mod ChibiOs
pub mod Router
pub mod ArduPilot
pub mod Bridge
pub mod Empty
