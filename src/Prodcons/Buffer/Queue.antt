-- ===== src/Prodcons/Buffer/Queue.antt =====
-- The slots fill the interface of a bounded store, and what that gives its client.
use linux_learning_by_doing.Prelude.{ℕ, ◌≡◌, some, List}
use linux_learning_by_doing.Fifo.{Fifo, Op, run, spec, run_lem}
use linux_learning_by_doing.Prodcons.Buffer.{Buffer, bufsize, strncpy, put_slot, get_slot}
use linux_learning_by_doing.Prodcons.Buffer.Ring.{Keeps, put_slot-Keeps, get_slot-Keeps}

abbrev pub slots : Fifo Buffer (List ℕ)
slots = record {
  Holds = Keeps;
  capacity = 5;
  kept = strncpy bufsize;
  put = put_slot;
  get = get_slot;
  put-Holds = put_slot-Keeps;
  get-Holds = get_slot-Keeps;
}

-- From slots that hold some items, any sequence of critical sections of `putitem` and `getitem` that never puts into five items nor gets
-- from none gives what a list of the copied items gives, oldest first, and leaves the slots holding
-- that list.
pub buffer_runs_as_list :
    (ops : List (Op (List ℕ))) (b : Buffer) (items outs items' : List (List ℕ))
    → Keeps b items
    → spec slots ops items ≡ some (outs, items')
    → ((run slots ops b).0 ≡ outs) × Keeps (run slots ops b).1 items'
buffer_runs_as_list ops b items outs items' k e = run_lem slots ops b items outs items' k e
