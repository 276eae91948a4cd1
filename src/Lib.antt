-- ===== src/Lib.antt =====
-- BulletTime traces the memory references of a running program. It has three parts.
--
-- The kernel module (src/kernel_dilation/sleep_dilation.c) stretches the sleeps of processes by
-- a factor that it takes from sysfs. Kernel/Sysfs models the settings and their stores,
-- Kernel/Show what reading them gives, Kernel/Sleep the two kprobe handlers as functions from
-- the old register to the new one, and Kernel/Lifecycle the registrations that init and exit
-- make. Registers are 64-bit patterns. The kernel's constants, `mult_frac` and the functions
-- that parse and write numbers are parameters; Kernel/Dilation says what the handlers do.
--
-- The Pin tool (src/pintool) fills a buffer for each application thread and hands it to the
-- consumer. Pintool/BufferList models BUFFER_LIST_MANAGER (buffer_manager.cpp): the functions of
-- one thread, and in BufferList/Threads the steps of any number of threads, cut at each access
-- to the exit event, the semaphore, the lock and the list. Pintool/Statistics models
-- statistics.cpp with its wrap-around; Statistics/Order takes the threads that end as a quotient
-- of lists, which forgets their order. Pintool/Representative models APP_THREAD_REPRESENTITVE
-- (app_representative.cpp): its construction and allocation, in Start the callback ThreadStart,
-- in Handoff CopyToSharedMemory and ProcessBuffer (bullettime.cpp), and in Progress, Transfer,
-- Reclaim, Link and Lifetime what follows for many hand-offs. A buffer is its address. What the
-- clock and the socket calls answer is an argument of each call. Pintool/Limit models CheckSkip
-- (bullettime.cpp) as the steps of any number of threads. BufferList/Queue is the abstract view
-- of the list: a first-in, first-out queue and its histories. Pintool/Callbacks models the
-- analysis callbacks (bullettime.h), Pintool/Instrument the calls that Trace (bullettime.cpp)
-- inserts and what the code then does, for the traces and operands that Pin gives, and
-- Instrument/Notes what Trace keeps for the final table. Pintool/Routines models ImageLoad and
-- the list of names in -fcalls, Pintool/ThreadFile the names that ThreadStart makes of
-- -outprefix, Pintool/Main the variables that main sets, with what they bound in the hand-offs,
-- Pintool/Connect the loop of connections, Pintool/Fini the ends of a thread and of the program,
-- and Pintool/PrettyTable the tables of pretty_table.h. Prelude/Text has what these use of
-- std::string. The one fuel in the tool is that of GetBufferFromList: AllBuffersProcessed takes
-- from a list with one thread, to which no one puts buffers, where one turn gives a buffer or
-- waits for ever.
--
-- The consumer (src/consumer) stores the blocks. Consumer/Listen models the loop of `Listen` in
-- consumer.cpp as a function on its locals, the shared block and the file: a turn takes what the
-- ready signal, `recv`, the counters and `write` return as its argument, and the loop a list of
-- turns, so that no fuel is needed. Listen/Finish is the code after the loop. zstd is a
-- parameter, and Listen/Invariant states what the program relies on in it. That the file is
-- opened again at 64 GB is modelled as a success. Consumer/CpuMonitor, KernelMonitor and
-- Descriptors model cpu_monitor.cpp and kernel_monitor.cpp, with the scaling in floating point
-- and the constants of perf_event.h as parameters.
--
-- Consumer/Control models a period of ControlThread: the maxima over the threads, their owners,
-- and the dilation factor. Consumer/Balance models what `Listen` does for the balance of
-- overheads after a block: the work it counts, the highest ratio, and the delay. Both take
-- doubles as the interface of Consumer/Double. The snapshot of the shared maximum and the
-- maximum under the lock are two arguments, since other threads run between them. Control/Loop
-- and Control/Factor join this part to the kernel module. Consumer/Shared lets any number of
-- listeners and ControlThread take turns at what `peak_lock` guards: a step is what one of them
-- does under the lock, and a listener balances by what it has read in an earlier step.
-- Consumer/Scan models the loop of main that starts a receiver for each new file, with a listing
-- of the directory as its argument. Consumer/Receiver models ReceiverThread: the parsing of the
-- name, and what the thread takes and gives back, for each way in which its calls answer.
-- Consumer/Options models the arguments of main, and Consumer/Dummy the delays of WriteDummy.
-- The loop of WriteDummy has fuel; Dummy/Ends shows that it needs no more turns than 10 ms can
-- be taken from the time to sleep.
--
-- Consumer/Account puts these together for a block that was stored: the output, the balance, and
-- the counters that ControlThread and LogThreadStats read. Consumer/ThreadData models
-- InitThreadData with all its vectors, and Consumer/Main the loop of main around Consumer/Scan,
-- with its early returns.
--
-- A message and the shared block tie the last two parts together:
-- Pintool/Representative/Transfer says what the block holds when a message is sent. Session runs
-- both sides: the hand-offs of a thread one after the other, each as a turn of its listener,
-- with compression in Session/Decodes and without it in Session/Raw, where the consumer writes
-- into the shared block. Session/Protocol is the same hand-off as a relation of steps in any
-- order that the two sockets allow, with the failures of `read`, `send` and `recv`, the stop of
-- the consumer and the closing of its sockets; a block is only a name there. Session/Discovery
-- joins the names that ThreadStart and Fini give to files to the scan that finds them and to the
-- receiver that reads them. Session/Counts follows the instructions from the thread's counters
-- to the listener's. Consumer/Copier and Consumer/Quarters stand for zstd and for doubles where
-- theorems are tried on examples.
--
-- Not modelled: the registration with Pin, the protection of pages, the wait for the pids
-- directory and its removal, and all messages but the numbers of Dump
-- (Pintool/Statistics/Report) and LogThreadStats (Consumer/Account/Log). Mutexes are left out
-- where one thread works on its own data.
pub mod Prelude
pub mod Kernel
pub mod Pintool
pub mod Consumer
pub mod Session
