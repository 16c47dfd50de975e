-- ===== src/Lib.antt =====
-- The web servers of multi_server/: eight C programs with one HTTP core. Each reads one request line
-- from a connection byte by byte, answers with a file, a directory listing, the number of requests so
-- far or, in three of them, the output of a script, and all but the first count their replies by class
-- in shared statistics behind a semaphore. They differ in who serves a connection: server.c and
-- multi_server_thread.c start a thread for each, multi_server.c forks a child for each,
-- multi_server_pre_create_thread.c and multi_server_pre_forked_pool_of_processes.c have 16 threads and
-- 32 processes wait in accept, multi_server_thread_blocking_queue.c and
-- multi_server_thread_Listening_on_multiple_ports.c feed 16 workers from a queue, and
-- multi_server_pass_socket_fd_to_child_processes.c is a copy of the pool of processes. Besides them:
-- CXXPRIMER/ascii_convert.cpp, which writes a string as '0' and '1' and back,
-- CXXPRIMER/template_for_unique_ptr.cpp and CXXPRIMER/template_for_shared_ptr.cpp, class templates for
-- pointers that own their object, Reference/multi_threading/condition_variable.cpp, threads that wait
-- for a flag, Reference/multi_threading/mutex.cpp, threads that count under a recursive mutex,
-- Reference/multi_threading/atomic/test.cpp, two tasks with a memory barrier between them, and
-- linux_task_list/main.c, a kernel module that prints the tree of tasks.
--
-- Which file models which part:
-- Prelude: names of the libraries, Boolean tests and conditionals on numbers, lists measured by
-- numbers, integers.
-- CLib: char buffers as functions from offsets (Buffer, with strncasecmp and C strings), %d (Decimal),
-- strtol and the conversion to int (Strtol).
-- Http: server.h (Types), parse_method (Method), parse_version (Version) and read_request_line
-- (ReadLine) of multi_server/multi_server.c. The state of the loop is the record Reader; dispatch is
-- one round of it. Method/Prefix, Version/Bounds and the files below ReadLine hold the proofs: Phases
-- and Parts read a token forwards and backwards, Grammar has the accepted lines, Bounds the writes.
-- Server: the state that handlers share (World), write_code (Stats), response (Reply), is_dir,
-- ls_version_two and req_parser (Files), pipe_read and ls_version_one (Listing), and the worker of
-- multi_server_thread_blocking_queue.c (Worker). Effect, Handlers and Serving count what a run takes
-- from the semaphore; Ensures is a logic of runs that return, with Fits for texts and send_buffer,
-- Books for replies, Balance for semaphore and counters, Served for the worker.
-- Process: handle_bash and the functions that stop a script (Bash) and do_call (Call) of multi_server.c
-- and of the pool; Books has what every step of a request keeps, Permits the semaphore and
-- need_stop_script, Serving and Refusal what follows for a request. Stream is a logic of the
-- bytes that a client receives, over the interface that Counting gives to the two forms of write_code;
-- Answer says what the bytes should be, and Answer/Gives, Answer/Handlers, Answer/Scripts (with
-- Answer/Stopping) and Answer/Exact that they are.
-- Queue: the blocking queue on an explicit heap; Chain relates it to a list, Calls has queue_put and
-- queue_get, Fifo their histories, Wakeup the monitor around them.
-- Protocol: write_code and the reading of requests as steps of many threads (System), with the
-- invariant (Invariant) and what follows (Safety); Family has sums over threads.
-- Programs: one module for each program, with its server, do_call and its copies of the shared text;
-- Accept says what socket calls and accept may do, Startup what the main functions create and the
-- handlers of signals do. Sessions and Account have requests one after the other. Answers compares threads, children and the pool by the bytes that they send, and
-- Single/Exact has those of server.c; Ports/Opening has main up to its
-- threads, Ports/Arrivals and Ports/Loop follow start_server, Ports/Whole
-- joins them. Pool/System,
-- from main on, and BlockingQueue/System are whole programs as steps of their processes or threads, with what holds of
-- them in Pool/Whole and BlockingQueue/Whole; Pool/Tally has the statistics as a function of a bag of
-- codes. Fork/System is multi_server.c, the parent with its children and the process that prints, with
-- the invariant in Fork/Exact over what each of them does (Fork/Children), and Fork/Whole.
-- Handover: sendConnection and recvConnection of multi_server/server.h, with Passing for what arrives.
-- TaskList: linux_task_list/main.c, with the order of the lines in Preorder.
-- Pointers: Unique is My_unique_ptr, with the deletions in Unique/Deleted; Shared is My_shared_ptr, with
-- its counters in Shared/Counts and any number of objects in Shared/Owners and Shared/Safety.
-- ConditionVariable: Reference/multi_threading/condition_variable.cpp as steps; Gate has the invariant,
-- Printed and Progress what the threads do.
-- RecursiveMutex: Reference/multi_threading/mutex.cpp as steps; Owner and Invariant say who has the
-- mutex, Count and Printed what is printed, Progress and Ending that the program ends.
-- StoreBuffers: Reference/multi_threading/atomic/test.cpp as steps of an x86 processor; Buffers and
-- Barrier have what holds with the barrier, Reordered a run without, Message what is printed.
-- AsciiConvert: CXXPRIMER/ascii_convert.cpp; RoundTrip and Overread have the proofs, Octets and Bits
-- the conversions as an equality of types.
-- Examples: the theorems at concrete inputs.
--
-- How the model stands to the code:
-- A connection is the list of bytes that recv returns before it returns 0 or -1, so the loops over it
-- are structural and need no fuel. print_int has n + 1 digits of fuel for n, find_char and c_string the
-- number of bytes left in the buffer. A char is its code; an int is its bit pattern below 2 ^ 32 in
-- counters and queue lengths, whose wrap-around is written out, and an integer where it is parsed.
-- What open, read, readdir, stat, accept, fork, waitpid and calloc do is part of the input: the results
-- of repeated calls are lists. A write outside recv_buffer is the outcome overrun or fault; sem_wait at
-- 0 is the outcome blocked. Texts longer than send_buffer are a fault, since the code sends as many
-- bytes as snprintf wanted; the theorems on whole requests assume that the texts of the operating
-- system (file names, strerror, what %s prints for a null pointer) are shorter than 4096 bytes.
-- A semaphore with a name and the statistics in shared memory outlive the processes (Ipc); sem_open and
-- the signal calls succeed unless the input says otherwise. recvmsg is a parameter, which installs a new
-- descriptor for each one that arrives. The process programs are the #else branch of SEM_FILE where the
-- theorem says so.
-- A SIGALRM, of the alarm(10) or alarm(5) of an earlier request, that comes between two requests is a
-- turn of its own in the loop of the pool. One that comes while a request runs counts as one before
-- the next read or wait of a script, and with no script as one behind the request: nothing else looks
-- at what its handler sets.
-- No program sets what SIGPIPE does. A send that returns EPIPE is that of a program started with
-- SIGPIPE ignored; otherwise the signal ends the process, which is not modelled, and the theorems on
-- what clients receive are for clients that stay.
-- The stores and loads of atomic/test.cpp, whose orders ask for no more, are the plain ones of the
-- processor; pthread_create and pthread_join leave no store in a buffer.
-- A request is served as one run, also in the steps of whole programs; the interleavings of several
-- are in Protocol, and the queue's calls are one step each, by their mutex.
--
-- Not modelled: log_print and what goes to stderr, which only reports; linux_kernel_modules, which
-- only prints; the C++ exercises of the repository but the six above, and of the two templates the
-- members that compile for no argument, operator= of My_shared_ptr, which ends with no return
-- statement, and the call of a deleter there, which does not compile. The steps of the pool leave out
-- the process that prints at SIGUSR1, which takes the semaphore and gives it back. Memory that free and
-- exit give back is not tracked, except for the queue's messages. The strings of ascii_convert.cpp are shorter than 2 ^ 28
-- bytes, so its int lengths do not overflow.
pub mod Prelude
pub mod CLib
pub mod Http
pub mod Server
pub mod Queue
pub mod Protocol
pub mod Process
pub mod Programs
pub mod Handover
pub mod TaskList
pub mod Pointers
pub mod ConditionVariable
pub mod RecursiveMutex
pub mod StoreBuffers
pub mod AsciiConvert
pub mod Examples
