-- ===== src/Prodcons/Calls/Tests.antt =====
-- The calls from a fresh start, interrupted, and refused.
use linux_learning_by_doing.Prelude.{
  ℕ, ◌≡◌, ◌≢◌, ◌⊎◌, refl, true, false, Option, none, some, List, [], ◌∷◌, ◌++◌, replicate, arith,
}
use linux_learning_by_doing.Prodcons.Buffer.{bufsize, strncpy, empty_buffer, put_slot}
use linux_learning_by_doing.Prodcons.Buffer.Ring.{empty-Keeps, put_slot-Keeps}
use linux_learning_by_doing.Prodcons.Calls.{
  Shared, InitAnswers, Answers, eintr, initialization, bufferinitonce, wait_sem, putitem, getitem,
}
use linux_learning_by_doing.Prodcons.Calls.Accounts.{
  Holds, wait_sem_retries, putitem_accounts, getitem_accounts, init_once, init_hides_failure,
}

abbrev no_errors : InitAnswers
no_errors = record { semitems = 0; semslots = 0; seminput = 0 }

abbrev no_slots : InitAnswers
no_slots = record { semitems = 0; semslots = 28; seminput = 0 }

abbrev raw : Shared
raw = record {
  buffer = empty_buffer;
  semitems = none;
  semslots = none;
  seminput = none;
  once = false;
  initdone = false;
  initerror = 0;
}

abbrev fresh : Shared
fresh = record {
  buffer = empty_buffer;
  semitems = some 0;
  semslots = some 5;
  seminput = some 0;
  once = true;
  initdone = true;
  initerror = 0;
}

-- Two interruptions, then all goes well.
abbrev fine : Answers
fine = record {
  once = 0;
  init = no_errors;
  waits = eintr ∷ eintr ∷ 0 ∷ [];
  lock = 0;
  unlock = 0;
  post = 0;
}

abbrev line : List ℕ
line = 104 ∷ 105 ∷ []

fresh_by_init : bufferinitonce 0 no_errors raw ≡ (0, fresh)
unfolding bufferinitonce
fresh_by_init = refl

fresh-Holds : Holds fresh 5 0 []
fresh-Holds = record { done = refl; slots = refl; fulls = refl; keeps = empty-Keeps }

wait_sem_retries_test : wait_sem (replicate 2 eintr ++ (0 ∷ [])) ≡ some 0
wait_sem_retries_test = wait_sem_retries 2 0 [] (omega arith)

putitem_accounts_example :
    (code : ℕ) × (s' : Shared) × (putitem fine line fresh ≡ some (code, s'))
    × ((code ≡ 0) × Holds s' 4 1 (strncpy bufsize line ∷ [])
        ⊎ (code ≢ 0)
          × (Holds s' 5 0 [] ⊎ (Holds s' 4 0 [] ⊎ Holds s' 4 0 (strncpy bufsize line ∷ []))))
putitem_accounts_example =
    putitem_accounts fine line fresh 4 0 [] 0 fresh-Holds (omega arith)
      (wait_sem_retries 2 0 [] (omega arith))

abbrev one_item : Shared
one_item = record fresh {
  buffer = put_slot line empty_buffer;
  semitems = some 1;
  semslots = some 4;
}

one_item-Holds : Holds one_item 4 1 (strncpy bufsize line ∷ [])
one_item-Holds = record {
  done = refl;
  slots = refl;
  fulls = refl;
  keeps = put_slot-Keeps empty_buffer [] line empty-Keeps (omega arith);
}

getitem_accounts_test :
    (code : ℕ) × (out : Option (List ℕ)) × (s' : Shared) × (getitem fine one_item
      ≡ some (code, out, s'))
    × ((code ≡ 0) × (out ≡ some (strncpy bufsize line)) × Holds s' 5 0 []
        ⊎ (code ≢ 0)
          × ((out ≡ none) × Holds s' 4 1 (strncpy bufsize line ∷ [])
              ⊎ ((out ≡ none) × Holds s' 4 0 (strncpy bufsize line ∷ [])
                  ⊎ (out ≡ some (strncpy bufsize line)) × Holds s' 4 0 [])))
getitem_accounts_test =
    getitem_accounts fine one_item 4 0 (strncpy bufsize line) [] 0 one_item-Holds
      (wait_sem_retries 2 0 [] (omega arith))

init_once_test :
    bufferinitonce 0 no_slots (bufferinitonce 0 no_errors raw).1 ≡ bufferinitonce 0 no_errors raw
init_once_test = init_once no_errors no_slots raw refl

init_hides_failure_test :
    let s' = initialization no_slots raw in
    (s'.initdone ≡ true) × (s'.initerror ≡ 0) × (s'.semitems ≡ none) × (s'.semslots ≡ none)
init_hides_failure_test = init_hides_failure no_slots raw refl (omega arith) refl
