-- ===== src/Startup/Servers.antt =====
-- thread_fifo_server1.c and thread_fifo_cl.c: threads that print what a client writes to a FIFO.
pub mod Echo
pub mod Pipe
use linux_learning_by_doing.Prelude.{
  ℕ, zero, suc, ◌+◌, ◌==◌, ltb, Bool, true, false, not, ◌&&◌, Option, none, some, List, [], ◌∷◌,
  ◌++◌, length, drop, if◌then◌else◌,
}
use linux_learning_by_doing.Prodcons.Buffer.{c_string}
use linux_learning_by_doing.Startup.{
  sigfillset, Process, Run, fresh, ◌>>◌, create, join, exit, exited, going, waiting,
}

-- `write(fd, buf, strlen(buf)+1)`: the string and its NUL, with whether `strlen` finds one in `buf`.
pub record Output : Type 0 where
  pub bytes : List ℕ
  pub in_bounds : Bool

abbrev pub write_string : List ℕ → Output
write_string buf = record {
  bytes = c_string buf ++ (0 ∷ []);
  in_bounds = ltb (length (c_string buf)) (length buf);
}

-- `read` overwrites the front of `buf`.
abbrev pub fill : List ℕ → List ℕ → List ℕ
fill chunk buf = chunk ++ drop (length chunk) buf

-- The loop of `thread_fifo` over what `read` answers: `none` for an error, the chunk otherwise, empty at
-- end of file. The status of `exit`, or `none` while it reads on, and what was written.
pub fifo_loop : List ℕ → List (Option (List ℕ)) → Option ℕ × List Output
fifo_loop buf [] = (none, [])
fifo_loop buf (none ∷ answers) = (some 5, [])
fifo_loop buf (some [] ∷ answers) = fifo_loop buf answers
fifo_loop buf (some (c ∷ chunk) ∷ answers) =
    let buf' = fill (c ∷ chunk) buf in
    let (status, outputs) = fifo_loop buf' answers in (status, write_string buf' ∷ outputs)

-- `thread_fifo`, with whether `open` succeeds and what its array `buf` of 512 bytes holds before.
pub thread_fifo : Bool → List ℕ → List (Option (List ℕ)) → Option ℕ × List Output
unfolding fifo_loop
thread_fifo opened buf answers = if opened then fifo_loop buf answers else (some 4, [])

-- `main` of thread_fifo_cl.c: the status of `exit`, and the chunks written. `answers` are those of `write`:
-- true where it succeeds. A string of 512 bytes or more runs past `buf` in `strcpy`; the model keeps it.
pub client_loop : List ℕ → List Bool → Option ℕ × List Output
client_loop buf [] = (none, [])
client_loop buf (false ∷ answers) = (some 3, [])
client_loop buf (true ∷ answers) =
    let (status, outputs) = client_loop buf answers in (status, write_string buf ∷ outputs)

pub main_client : ℕ → Bool → List ℕ → List Bool → Option ℕ × List Output
unfolding client_loop
main_client argc opened data_string answers =
    let copied = c_string data_string ++ (0 ∷ []) in
    if ltb argc 3
    then (some 1, [])
    else if not opened
    then (some 2, [])
    else client_loop copied answers

abbrev pub eexist : ℕ
eexist = 17

-- `mkfifo` with its error number, 0 where it succeeds, and the test that follows.
abbrev pub mkfifo : {A : Type 0} → ℕ → Process A → Run A
mkfifo zero p = going p
mkfifo (suc error) p = if suc error == eexist then going p else exited 1 p

-- The threads of the FIFO programs
pub data FifoThread : Type 0 where
  thread_func1 thread_func3 : FifoThread
  fifo : ℕ → FifoThread

-- `main` of thread_fifo_server1.c. The signal set that it fills is never installed.
pub main_server1 : (FifoThread → Bool) → (fifo1 fifo2 fifo3 th1 th2 th3 : ℕ) → Run FifoThread
main_server1 ends fifo1 fifo2 fifo3 th1 th2 th3 =
    (mkfifo fifo1
        >> mkfifo fifo2
        >> mkfifo fifo3
        >> create 0 (FifoThread.fifo 0) th1 1
        >> create 1 (FifoThread.fifo 1) th2 1
        >> create 2 (FifoThread.fifo 2) th3 1
        >> join ends 0
        >> join ends 1
        >> join ends 2
        >> exit 0)
      fresh
