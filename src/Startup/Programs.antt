-- ===== src/Startup/Programs.antt =====
-- The function `thread_fifo` of thread_fifo_server2.c, sigwait1.c and thread_sig_handler.c, which have the text of
-- thread_fifo_server1.c, and `main` of sigwait1.c, which has that of thread_fifo_server2.c.
use linux_learning_by_doing.Prelude.{
  ℕ, ◌≤◌, ◌<◌, ◌≡◌, Bool, true, Option, some, List, [], ◌∷◌, ◌++◌, length,
}
use linux_learning_by_doing.Prodcons.Buffer.{c_string}
use linux_learning_by_doing.Startup.{Run}
use linux_learning_by_doing.Startup.Servers.{Output, FifoThread, thread_fifo, main_client}
use linux_learning_by_doing.Startup.Servers.Echo.{client_to_server}
use linux_learning_by_doing.Startup.Signals.{main_server2}

abbrev pub ThreadFifo : Type 0
ThreadFifo = Bool → List ℕ → List (Option (List ℕ)) → Option ℕ × List Output

abbrev pub thread_fifo_server2 : ThreadFifo
thread_fifo_server2 = thread_fifo

abbrev pub thread_fifo_sigwait1 : ThreadFifo
thread_fifo_sigwait1 = thread_fifo

abbrev pub thread_fifo_sig_handler : ThreadFifo
thread_fifo_sig_handler = thread_fifo

abbrev pub main_sigwait1 : (FifoThread → Bool) → (th1 th2 th3 th4 : ℕ) → Run FifoThread
main_sigwait1 = main_server2

pub data FifoProgram : Type 0 where
  server1 server2 sigwait1 sig_handler : FifoProgram

abbrev pub thread_fifo_of : FifoProgram → ThreadFifo
thread_fifo_of server1 = thread_fifo
thread_fifo_of server2 = thread_fifo_server2
thread_fifo_of sigwait1 = thread_fifo_sigwait1
thread_fifo_of sig_handler = thread_fifo_sig_handler

-- A client with enough arguments whose `open` succeeds, and whose string fits into an array as long as
-- that of the server, with each of the four programs as the server: what its first `write` sends, as
-- one chunk, the server writes unchanged and within its array, and it is the client's string with its
-- NUL.
pub client_to_servers :
    (p : FifoProgram) (argc : ℕ) (data_string : List ℕ) (writes : List Bool) (buf : List ℕ)
    (reads : List (Option (List ℕ)))
    → 3 ≤ argc
    → length (c_string data_string) < length buf
    → (message : Output) × (sent printed : List Output) × ((main_client argc true data_string
          (true ∷ writes)).1
        ≡ message ∷ sent)
      × ((thread_fifo_of p true buf (some message.bytes ∷ reads)).1 ≡ message ∷ printed)
      × (message.bytes ≡ c_string data_string ++ (0 ∷ []))
client_to_servers server1 = client_to_server
client_to_servers server2 = client_to_server
client_to_servers sigwait1 = client_to_server
client_to_servers sig_handler = client_to_server
