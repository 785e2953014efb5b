-- ===== src/Lib.antt =====
-- Linux-Learning-By-Doing: a collection of C programs that teach threads, processes and kernel
-- modules. Each is a program of its own; what they share is the operating system below them.
--
-- The parts, and where they stand:
--
-- - Uart: KernelDrivers_March2011/uart_pci_latest_March2011.c, a driver for a PCI card with two
--   ports. Uart.State has its globals (`P_DEV`, `my_dev_1`, `my_dev_2`, `pci_bar`) and a count of
--   what it holds of the kernel; Uart.Config the register writes of `device_diagnos_config` and
--   `device_nondiagnos_config`; Uart.Diagnos `device_diagnos_start`; Uart.Device `pci_dev_init`;
--   Uart.Open `uart_open`, Uart.Open.Race two calls at a time; Uart.Probe `init_pci`, `pci_probe`,
--   `pci_remove` and `exit_pci`, where `pci_probe` is cut at its comments into functions that call one another in
--   its order.
-- - JobQueue: Examples/Threads/thread_mutex_cond.c. JobQueue.Queue has the linked list of jobs on a
--   heap with the loops that walk it; JobQueue.Threads the two threads under the mutex and the two
--   condition variables, as steps, and JobQueue.Settles the steps between two texts;
--   JobQueue.Queue.Printed has what `printf` makes of a text that `read` left without a NUL.
-- - Prodcons: Examples/Threads/prodcons_threads.c. Prodcons.Buffer has the five slots,
--   Prodcons.Calls `bufferinit` to `putitem` with every error that a call may answer, and
--   Prodcons.Threads the four threads as steps, where the calls succeed; Prodcons.Progress.Settles
--   has the steps between two lines. Prodcons.Variants has what prodcons_threads1.c to 3.c share with
--   it and their display threads, Prodcons.Progress.Cancelled what follows when that is cancelled.
-- - Cancellation: the calls of a thread that may be cancelled, its cleanup handlers and a mutex, with
--   `thread_func1` of Examples/Threads/thread_fifo_server1.c.
-- - ProcSeq: KernelDrivers_March2011/proc_seq_example1.c, 2.c and 3.c. ProcSeq.Nodes has the doubly
--   linked list, ProcSeq.Iterator the `seq_operations`, ProcSeq.Module loading and unloading;
--   ProcSeq.Tasks the `seq_operations` of 2.c, which walk the list of processes; ProcSeq.Readers the
--   programs proc_seq_test.c and proc_seq_test1.c that read the file, and ProcSeq.Readme the module and
--   a reader together, with what the kernel does between them as hypotheses; ProcSeq.Examples has the
--   three modules side by side, ProcSeq.Window a reader while the module is loaded or unloaded.
-- - SharedMemory: Assignment/2_3. SharedMemory.Processes has a1_p.c and a1_c.c, two processes with a
--   ring in shared memory, whose semaphore never works (one that does is there for
--   comparison), SharedMemory.Setup what they do before their loops, SharedMemory.Token what becomes of the unit of their semaphore; SharedMemory.Forked has the ring between a parent and its
--   child in a1_a.c, and SharedMemory.Handshake the semaphore of a2.c, all as steps.
-- - Startup: the `main` functions of Examples/Threads as sequences of calls on a process with a signal
--   mask, thread ids and threads. Startup.Buffers has those of the producer and consumer programs,
--   Startup.Servers thread_fifo_server1.c and thread_fifo_cl.c, with the FIFO between them as steps in
--   Startup.Servers.Pipe, Startup.Signals thread_fifo_server2.c, sigwait1.c,
--   thread_sig_handler.c and sigwait2.c; the threads of sigwait2.c are steps in
--   Startup.Signals.Waits, those of thread_sig_handler.c in Startup.Signals.Handling;
--   Startup.Programs what the programs with a FIFO share.
-- - Forks: Assignment/2_2/a1.c, a2.c and a5.c, the numbers of processes forked and waited for;
--   Forks.Unlimited Assignment/2_1/a1.c and Forks.Compile Assignment/2_2/a4.c, the parent with its
--   children, as steps; Forks.Single the programs of one call, 2_1/a2.c, 2_1/a6.c and 2_2/a3.c.
-- - Signals: Assignment/2_1. Signals.Children has a3.c, whose handler of SIGCHLD waits for children, as
--   steps; Signals.Dispositions a4.c and a5.c, over the signals that come while they wait.
-- - SysCall: `sys_test_call` at the end of KernelDrivers_March2011/sys.c, and its callers
--   syscall_custom1.c and syscall_fork.c, with the memory byte by byte and `_syscall2` of
--   syscallmacros.h on the i386; SysCall.Clients has
--   syscall_example1.c, syscall_example2.c and syscall_custom2.c.
-- - Hello: KernelDrivers_March2011/hello.c and hello1.c, with the loading and unloading as steps, and
--   setconsole.c.
-- - Audio: SampleCallBack/SourceInterface.cpp, a class with the events that it subscribes to.
--   Audio.Session has the events and the calls of a user as the inputs of a run, Audio.Runs what a run
--   does, and Audio.Sources the unordered map of sources.
-- - Fifo: the interface that the slots of Prodcons.Buffer and the ring of SharedMemory both fill.
-- - Prelude: names of the libraries, Boolean tests, lists and integers over the native numbers.
--
-- Conventions. A call of the kernel or of the C library answers with a value that the definition
-- takes as an argument; a theorem for all answers covers all failures. An error number is 0 where
-- the call succeeds. A pointer is an address or `none`, and the heap a function from addresses. An
-- array is a list of bytes, or a function of the index. A program of several threads is a step
-- relation whose steps lie between calls that may block or be seen; its states carry a history of
-- what was read, put or printed, which the code does not keep. `unsigned int` wraps at 2 ^ 32 where
-- the code adds; the counters of jobs and items stay below that by the invariants.
--
-- Fuel. `last_job`, `drain`, `find`, `shown` and `free_nodes` walk a linked list with fuel; one more
-- than the number of nodes is enough on a list that is linked well, and the theorems take that much;
-- so do `find_task` and `cat_tasks` on the list of processes, and `copy_rest` with the bytes of a file.
-- `chain` and `create_children` recurse on a counter of the code that stops at 5.
-- Loops over answers of the hardware or the kernel end with the list of answers.
--
-- Not modelled: what is printed to a terminal or the kernel log where the code does nothing with it, the
-- scheduling attributes of threads, and thread functions that only print, but for those of
-- thread_sig_handler.c;
-- KernelDrivers_March2011/sys.c but for its last function (a file of the Linux kernel),
-- the other macros of syscallmacros.h (a header of it), syscall_example11.c (preprocessor output), the *.mod.c files
-- (generated), `thread_func3` of thread_fifo_server2.c and sigwait1.c, which does not compile, the
-- numeric samples, `uart_release`, which does not compile and uses a pointer that it never sets, SIGCONT
-- in Signals.Dispositions, and the notes.
pub mod Prelude
pub mod Uart
pub mod Prodcons
pub mod JobQueue
pub mod ProcSeq
pub mod Startup
pub mod SharedMemory
pub mod Forks
pub mod Fifo
pub mod Audio
pub mod Cancellation
pub mod Hello
pub mod Signals
pub mod SysCall
