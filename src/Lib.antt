-- ===== src/Lib.antt =====
-- Verification of the course library: user threads and their synchronisation, channels, queues, a
-- thread pool, a latch, and the echo servers. Each component is translated to definitions that compute,
-- and the theorems are about those definitions.
--
-- The parts, from the bottom:
-- - Prelude: the numbers, lists, options and maps that the components share, and their lemmas.
-- - Ring (uthreads/include/list.h): intrusive circular lists on one memory of links. `IsRing m h xs`
--   says that the list with head `h` holds the entries `xs`, in order.
-- - Uthread (uthreads/uthread/uthread.c, uthreadinternal.h, ctxswitch.s): the scheduler. A `Machine`
--   is the links, the descriptors, the words of memory, the registers, the allocated blocks and the
--   module's variables. Uthread/Spec is the scheduler without memory: a running thread, a ready queue
--   and the blocked threads; `Refines` relates the two. Lifetime is about ut_create, ut_exit and
--   ut_activate, Switch about the registers and stacks, Running about ut_run and turns.
-- - Synch (waitblock.h, event.c and semaphore.c of uthreads/uthread, include/usynch.h): events and
--   semaphores, whose wait blocks lie in a list on the same memory as the scheduler's. Synch/Waiters
--   says how such a list lies beside the scheduler's. Semaphore/Earlier is the sem_post of
--   aula-05-04/uthreads/uthread/semaphore.c.
-- - MemChannel (aula-06-03/servers_tests/ipc/memchannel/memchan.c): a ring buffer under a lock.
--   MemChannel/Lifetime adds the region that it lies in, by the functions of Shmem.
-- - AtomicChannel (aula-06-03/servers_tests/ipc/memchannel2/memchan.c): the channel on atomic
--   counters, one step for each access to what is shared; AtomicChannel/Lifetime is about mc_create,
--   with its error paths, and mc_destroy.
-- - BlockingQueue (aula-05-13a/queue.c): the linked queue of the thread pool.
-- - ThreadPool (aula-05-13a/tpool.c): the pool, its clients and the thread in tp_destroy, as steps that
--   interleave. A step is a stretch under the lock, or between two. ThreadPool/Earlier is
--   aula-05-13/tpool.c, by schedules of such moves.
-- - ItemPool (aula-05-13a/tpool2.c): the pool whose items come from a list of free ones, over Ring.
-- - EchoServer (aula-06-03/servers_tests/echo_service): Poll and Select are the tables of
--   echo_ip_pollchannel/echo_srv.c and echo_ip_selchannel/echo_srv.c; EventLoop is loop.c and
--   echo_srv.c of echo_ip_epoll_cb, with its handles on a heap; Epoll is echo_srv.c of
--   echo_ip_epollchannel. FirstEpoll and FirstSelect are echo_ip_epoolchannel/echo_srv.c and
--   echo_ipselchannel/echo_srv.c of aula-06-01/servers_tests/echo_service. What a system call gives is
--   an argument. Uv is aula-06-08/echo_libuv/echo_uv_srv.c: a callback gives the calls of libuv that it
--   makes, and Uv/Loop says what libuv promises about them. Pooled is echo_ipchannel/echo_srv.c of
--   aula-06-03, whose connections are served by the threads of ThreadPool, and Fifo is echo_srv.c and
--   echo_cli.c of its echo_fifo_channel, a server and its clients as one system.
-- - Shmem (lib/memutils.c, utils/memutils.c, utils/memutils2.c): regions and mapped files, by the
--   descriptors, mappings and calls of unlink that they leave.
-- - Latch (aula-05-13a/cdl.c, aula-05-13/cdl.c): the latch under its lock, and the earlier one.
-- - Adder (aula-05-13a/padder.c, aula-05-11/chrono.c): sums by four threads, and time measurement.
--   Adder/Pool (aula-05-13a/tp_adder.c) is the sum by a thread pool that ends on the latch of Latch.
-- - Pipeline (uthreads/tests/queue.c and pgrep.c): bounded queues on two semaphores, and the three
--   threads that print the lines with a word, as steps that interleave. A semaphore stands for its
--   units, as Synch gives them.
-- - ThreadResult (aula-04-29/uthreads/uthread/uthread.c): UtCreate64, UtExit with a result, the functions
--   that give it, and the end of Schedule, over Uthread and Synch.
--
-- Integers: the number of user threads is wrapped at 64 bits (`% 2 ^ 64`), and a theorem that needs it
-- to fit says so. A sum of semaphore units of 2 ^ 31 or more, which is undefined, gives no result. The
-- other counts, and the products that give sizes, are taken not to overflow. Addresses and descriptors
-- are natural numbers; the null pointer is 0. Where the code reads through a null pointer or a freed
-- block, the model gives `none` or `fault`. An fd_set has FD_SETSIZE bits: a use of
-- it with another descriptor is `overflow` in FirstSelect. A read that poll has not reported may not
-- return: Poll gives `blocked` there. A second use of a request of uv_write is noted in `reused`.
--
-- Loops over lists run on fuel: event_set and sem_post need more fuel than there are waiters, UtExit as
-- much, and the tables of the servers on poll and select more than there are slots; the theorems that
-- name the fuel prove that this is enough.
--
-- Not modelled: the output of the programs, the demonstrations of fork, exec, pipe and memory, the
-- other versions of the user threads, the servers on Unix sockets and on the shared channel, the lines
-- of /proc/meminfo, and the test framework Unity. Locks and
-- conditions are what their documentation says: a thread in a critical section is alone in it, and a
-- wait may end by itself. Memory that malloc or mmap gives has any contents.
pub mod Prelude
pub mod Ring
pub mod Uthread
pub mod Synch
pub mod ItemPool
pub mod MemChannel
pub mod AtomicChannel
pub mod BlockingQueue
pub mod ThreadPool
pub mod ThreadResult
pub mod Adder
pub mod EchoServer
pub mod Latch
pub mod Pipeline
pub mod Shmem
