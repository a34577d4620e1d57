-- ===== src/Lib.antt =====
-- The three processes of "A Mongos": the memory MiRAMHQ and the file system IMongoStore, as they
-- answer the messages of the others, and the Discordiador, which plans the tripulantes.
--
-- MiRAMHQ keeps the patotas, their tripulantes (TCBs) and their tasks in one block of memory.
-- A server thread reads a message, an opcode with a buffer, and hands it to one of two handlers,
-- by the scheme that the configuration names: `segmentation_handler` or `pagination_handler` of
-- MiRAMHQ/main.c. Both work on the globals of MiRAMHQ/memory.h by the functions of
-- MiRAMHQ/memory.c.
--
-- IMongoStore keeps the resources (oxygen, food and rubbish) and a log, the "bitácora", of every
-- tripulante, each as a file of metadata with its SIZE and the list of its blocks. The blocks are
-- in a copy of Blocks.ims, and a bitmap says which are used. `handler` of
-- IMongoStore/atenderTripulantes.c serves the messages: a task writes to a bitácora and adds to a
-- resource or takes from it (IMongoStore/tareas.c, guardarBlocks.c and actualizarMetadata.c), and
-- after a sabotage the files are checked and repaired (IMongoStore/sabotajes.c).
--
-- The Discordiador moves the tripulantes between seven queues, from NEW to EXIT. Each transition has
-- a thread (Discordiador/planificador.c), each tripulante has one (Discordiador/patotas.c), and the
-- console (Discordiador/consola.c) starts the planning, makes patotas and expels tripulantes. The
-- threads take turns by semaphores. IMongoStore signals a sabotage (Discordiador/sabotaje.c), which
-- blocks the tripulantes until the nearest of them has repaired it. The processes talk by messages
-- of unnamed/serialization.c and unnamed/socket.c. Which file models what:
--
--   Base          numbers, lists, options (Base/Options), blocks of bytes with `memcpy`
--                 (Base/Bytes), texts in them (Base/Texts), and how often a number stands in a
--                 list (Base/Counts)
--   Commons       lists and dictionaries of so-commons-library, as a record of operations and laws
--   Segmentation  the segmentation scheme
--     State         `segment` and the globals, as the record `Ram`
--     Table         the tables: get_last_index, find_*_segment, remove_segment_from_table,
--                   get_next_segment
--     Holes         the free segments: mem_space, memory_best_fit, memory_seek
--     Compaction    memory_compaction, and the search for space that compacts and tries again
--     Records       save_* and get_* of a PCB, a TCB and the tasks
--     Tasks         get_next_task
--     Patota        INICIAR_PATOTA (Patota/Entries is about what its segments are for)
--     Handler       the other branches, the handler, and the state that `main` sets up (`start`)
--     Regions       measures of address ranges, which the invariant is stated with
--     Invariant     `IsSound`, the invariant of the state
--   Paging        the paging scheme
--     State         `frame_t`, `page_t`, `admin_data` and the globals, as the record `Paged`
--     Replacement   get_next_lru_frame and get_next_clock_frame
--     Frames        get_frame and check_free_frames
--     Saving        save_data_in_memory
--     Pages         update_status_from_page, update_position_from_page, update_task_from_page
--     Tasks         get_task_from_page
--     Removal       remove_pcb_from_page and remove_tcb_from_page
--     Handler       pagination_handler and setup_pagination
--   Store         IMongoStore
--     State         the metadata, the superblock and the blocks, as the record `Fs`
--     Saving        guardarEnBlocks, guardarPorBloque, validarBitsLibre and setearMD5
--     Erasing       borrarEnBlocks
--     Bitacora      obtenerBitacora
--     Tasks         tareas.c
--     Repair        protocolo_fsck
--     Handler       the handler, and the copy of the blocks to the disk
--   Messages      _serialize, _send_message and _receive_message; Messages/Written and
--                 Messages/Framed are about them
--   Discordiador  the planner
--     State         `tcb`, `pcb`, the queues and the other globals, as the record `Nave`
--     Tripulante    a cycle of a tripulante: it moves, does its task or repairs the sabotage
--                   (Tripulante/Moves is about the way to a position)
--     Planner       the transitions between the queues, and Planner/Emergency those of a sabotage
--                   (Emergency/Nearest and Emergency/Started are about the choice of the fixer)
--     Patotas       get_tareas, crear_TCB, crear_PCB and iniciar_tcb; Patotas/Read and Patotas/Saved
--                   are about the message that MiRAMHQ gets, with Patotas/Crew
--     Console       the commands
--     Threads       the semaphores, the rounds of the threads, and their steps, `Paso`
--     Quiet         which steps leave the queues as they are
--     Queues        `IsKept`, the invariant of the queues (Queues/Reached has the states that are
--                   reached)
--     Turns         the invariant of the semaphores
--
-- A handler is a function from the globals and the buffer to an option of the new globals and the
-- answer; `none` is a fault: a read through NULL, past a block, or of what was never set. Pointers
-- to segments and pages are numbers into a heap, `heap`, since tables share them. A block of
-- memory is a function from the offset to the byte, and an `int` or `uint32_t` in it is four bytes,
-- low byte first. Numbers that messages carry are the naturals that these bytes make; where the code
-- uses one as a size in an `int`, one from 2^31 on is negative there, and is a fault, and so is an
-- `int` that overflows. Additions that the code makes in `uint32_t` are written with their wrap. A key of a dictionary, which the code makes by
-- `string_itoa`, is the number itself.
--
-- How a list is sorted, where an entry of a dictionary goes, what a fresh block of `malloc` holds,
-- and which bucket a key is in belong to the library and are parameters; Commons/Examples has an
-- instance of the laws. In the Store, the program `md5sum`, `string_split` and `string_itoa` are
-- parameters. The quotient of two doubles under `ceil` is the exact one.
--
-- In the Store a call has a `Result`: it returns, it ends the process by `exit(-1)`, or it faults.
-- The values of metadata and the numbers of blocks are naturals, a list of blocks is a list of
-- numbers, and where the code would make a size or a count negative the model faults. In
-- borrarEnBlocks and setearMD5 it faults at an access outside the bitmap or the blocks as well.
--
-- In the Discordiador a pointer to a `tcb` is the number of tcbs that were made before it. A round
-- of a thread, which it does behind its semaphore, is one step, and so is a command of the console;
-- the thread from NEW to READY waits twice, and has two. A step is any thread that may go on, in any
-- order. `none` is a fault, or the wait for a semaphore. What MiRAMHQ answers, string_split, atoi,
-- getline, send and recv are parameters; atoi is not negative. `send` says how much it took, and
-- `recv` gives from what has arrived; a short read is a fault, as the rest was never set. Distances are compared by their
-- squares, without the root.
--
-- Fuel: the loop of ELIMINAR_PATOTA has one round more than there are segments, which is
-- enough; the loop of the clock has three rounds; the loops over the bytes of a task have one
-- round more than the text has bytes; and the loop that writes the pages after an EXPULSAR has as
-- many rounds as pages are needed. The loop of borrarEnBlocks has two rounds more than the file has
-- blocks, and the loop over the bitácoras in the check of the bitmap has as many as the parameter
-- says.
--
-- Not modelled: the locks, as a message is served as a whole; the map, the log and the dump file;
-- the release of memory; what IMongoStore does when it starts with files that are there; the
-- connections and servers (unnamed); the end of the Discordiador by the command SALIR, and its log.
pub mod Base
pub mod Commons
pub mod Segmentation
pub mod Paging
pub mod Store
pub mod Messages
pub mod Discordiador
