-- ===== src/JobQueue/Queue.antt =====
-- thread_mutex_cond.c: `struct job_head`, `struct job` and the two loops that walk the list.
pub mod Shape
pub mod Enqueue
pub mod Dequeue
pub mod Printed
use linux_learning_by_doing.Prelude.{
  ℕ, zero, suc, ◌+◌, ◌-◌, ◌%◌, ◌^◌, ◌==◌, Option, none, some, List, [], ◌∷◌, ◌++◌, drop, length,
  if◌then◌else◌,
}

-- `struct job`; a pointer is an address or NULL (`none`).
pub record Job : Type 0 where
  pub str1 : List ℕ
  pub next : Option ℕ

-- What `read` leaves in `str1`: the bytes of the input, and after them what `malloc` found there. The result of
-- `read` is not looked at; where it is an error, no byte is read.
abbrev pub stored : List ℕ → List ℕ → List ℕ
stored input old = input ++ drop (length input) old

abbrev pub before : List ℕ → Option (List ℕ) → Option (List ℕ)
before cs none = none
before cs (some ds) = some (cs ++ ds)

-- What `printf("%s")` prints of the array: its bytes before the first NUL. `none`: there is no NUL in the array,
-- and `printf` goes on past its end.
unfoldable pub shown : List ℕ → Option (List ℕ)
shown [] = none
shown (zero ∷ bytes) = some []
shown (suc c ∷ bytes) = before (suc c ∷ []) (shown bytes)

-- `job_head1`, with the heap that its list lies in: an address that is not allocated holds `none`.
pub record Queue : Type 0 where
  pub queue_count : ℕ
  pub next : Option ℕ
  pub cell : ℕ → Option Job

abbrev pub update : (ℕ → Option Job) → ℕ → Option Job → ℕ → Option Job
update cell a v b = if a == b then v else cell b

-- `while (temp->next != NULL) temp = temp->next`; `none` is a read of an address that is not
-- allocated, or no fuel.
pub last_job : ℕ → (ℕ → Option Job) → ℕ → Option ℕ
last_job zero cell temp = none
last_job (suc fuel) cell temp = elim (cell temp) [
  | none ↦ none
  | some job ↦ elim job.next [ none ↦ some temp | some n ↦ last_job fuel cell n ]
]

-- `temp->next = new_job`
pub link : (ℕ → Option Job) → ℕ → ℕ → Option (ℕ → Option Job)
link cell temp new_job = elim (cell temp) [
  | none ↦ none
  | some job ↦ some (update cell temp (some (record job { next = some new_job })))
]

abbrev pub count_up : Queue → Queue
count_up q = record q { queue_count = (q.queue_count + 1) % 2 ^ 32 }

-- The producer from `malloc`, which gave the address `new_job`, to `queue_count++`, with what
-- is then in `str1`. The walk has fuel for one job more than are counted.
unfoldable pub enqueue : Queue → ℕ → List ℕ → Option Queue
unfolding last_job link
enqueue q new_job str1 =
    let cell = update q.cell new_job (some (record { str1 = str1; next = none })) in
    elim q.next [
      | none ↦ some (count_up (record q { next = some new_job; cell = cell }))
      | some head ↦ elim (last_job (suc q.queue_count) cell head) [
        | none ↦ none
        | some temp ↦ elim (link cell temp new_job) [
          | none ↦ none
          | some linked ↦ some (count_up (record q { cell = linked }))
        ]
      ]
    ]

-- One round of the consumer's inner loop at the job `a`: unlink, `queue_count--`, `free`.
abbrev pub unlink : Queue → ℕ → Job → Queue
unlink q a job = record {
  queue_count = (q.queue_count + 2 ^ 32 - 1) % 2 ^ 32;
  next = job.next;
  cell = update q.cell a none;
}

-- The consumer's inner `while (1)`: what is printed of each, and the queue at the `break`; `none` is a
-- read of an address that is not allocated, or no fuel.
pub drain : ℕ → Queue → List (Option (List ℕ)) → Option (List (Option (List ℕ)) × Queue)
drain zero q out = none
drain (suc fuel) q out = elim q.next [
  | none ↦ some (out, q)
  | some a ↦ elim (q.cell a) [
    | none ↦ none
    | some job ↦ drain fuel (unlink q a job) (out ++ (shown job.str1 ∷ []))
  ]
]

-- With fuel for one round more than are counted.
abbrev pub dequeue_all : Queue → Option (List (Option (List ℕ)) × Queue)
dequeue_all q = drain (suc q.queue_count) q []
