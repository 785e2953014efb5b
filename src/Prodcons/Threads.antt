-- ===== src/Prodcons/Threads.antt =====
-- prodcons_threads.c: the four threads as a step relation. A step is what a thread does between two
-- calls that may block or that another thread can see. The calls of the library succeed here;
-- `Calls` has their error paths.
use linux_learning_by_doing.Prelude.{ℕ, suc, ◌-◌, ◌<◌, ◌≡◌, Bool, true, false, List, [], ◌∷◌, ◌++◌}
use linux_learning_by_doing.Prodcons.Buffer.{
  Buffer, bufsize, strncpy, put_slot, get_slot, empty_buffer,
}

-- `user_input_thread`
pub data User : Type 0 where
  reading : User  -- before `fgets`
  typed : List ℕ → User  -- before the lock of `input_buffer_lock`, with the line
  copying : List ℕ → User  -- with the lock
  leaving : User  -- before the unlock
  posting : User  -- before `sem_post(&seminput)`

-- `producer_thread`, from `wait_slot` on inside `putitem`
pub data Producer : Type 0 where
  wait_input : Producer  -- at `sem_wait(&seminput)`
  lock_input : Producer  -- before the lock of `input_buffer_lock`
  check_init : Producer  -- at `if (!initdone)`
  wait_slot : Producer  -- at `sem_wait(&semslots)`
  lock_data : Producer  -- before the lock of `data_buffer_lock`
  putting : Producer  -- with that lock, before the copy
  unlock_data : Producer  -- before the unlock
  post_item : Producer  -- before `sem_post(&semitems)`
  unlock_input : Producer  -- back in the thread, before the unlock of `input_buffer_lock`

-- `consumer_thread`, inside `getitem`
pub data Consumer : Type 0 where
  check_init : Consumer  -- at `if (!initdone)`
  wait_item : Consumer  -- at `sem_wait(&semitems)`
  lock_data : Consumer  -- before the lock of `data_buffer_lock`
  getting : Consumer  -- with that lock, before the copy
  unlock_data : Consumer  -- before the unlock
  post_slot : Consumer  -- before `sem_post(&semslots)`

-- `display_status_thread`
pub data Display : Type 0 where
  outside : Display  -- before the lock of `data_buffer_lock`
  inside : Display  -- before the unlock

pub data InputOwner : Type 0 where
  nobody the_user the_producer : InputOwner

pub data DataOwner : Type 0 where
  nobody the_producer the_consumer the_display : DataOwner

-- The globals, the threads, and what has been read, put into the buffer and got from it.
pub record System : Type 0 where
  pub buffer : Buffer
  pub user_input_buffer : List ℕ
  pub initdone : Bool
  pub semitems : ℕ
  pub semslots : ℕ
  pub seminput : ℕ
  pub input_lock : InputOwner
  pub data_lock : DataOwner
  pub user : User
  pub producer : Producer
  pub consumer : Consumer
  pub display : Display
  pub lines : List (List ℕ)
  pub put : List (List ℕ)
  pub got : List (List ℕ)

-- `main` once its threads run. The semaphores are zeroed static storage until they are initialised.
abbrev pub initial : System
initial = record {
  buffer = empty_buffer;
  user_input_buffer = [];
  initdone = false;
  semitems = 0;
  semslots = 0;
  seminput = 0;
  input_lock = InputOwner.nobody;
  data_lock = DataOwner.nobody;
  user = User.reading;
  producer = Producer.wait_input;
  consumer = Consumer.check_init;
  display = Display.outside;
  lines = [];
  put = [];
  got = [];
}

-- `bufferinitonce`, where all succeeds
abbrev pub initialised : System → System
initialised s = record s { initdone = true; semitems = 0; semslots = 5; seminput = 0 }

pub data Step (s : System) : System → Type 0 where
  u_read :
      (line : List ℕ)
      → s.user ≡ User.reading
      → Step s (record s { lines = s.lines ++ (line ∷ []); user = User.typed line })
  u_lock :
      (line : List ℕ)
      → s.user ≡ User.typed line
      → s.input_lock ≡ InputOwner.nobody
      → Step s (record s { input_lock = InputOwner.the_user; user = User.copying line })
  u_copy :
      (line : List ℕ)
      → s.user ≡ User.copying line
      → Step s (record s { user_input_buffer = strncpy bufsize line; user = User.leaving })
  u_unlock :
      s.user ≡ User.leaving
      → Step s (record s { input_lock = InputOwner.nobody; user = User.posting })
  u_post :
      s.user ≡ User.posting → Step s (record s { seminput = suc s.seminput; user = User.reading })
  p_wait_input :
      s.producer ≡ Producer.wait_input
      → 0 < s.seminput
      → Step s (record s { seminput = s.seminput - 1; producer = Producer.lock_input })
  p_lock_input :
      s.producer ≡ Producer.lock_input
      → s.input_lock ≡ InputOwner.nobody
      → Step s (record s { input_lock = InputOwner.the_producer; producer = Producer.check_init })
  p_init :
      s.producer ≡ Producer.check_init
      → s.initdone ≡ false
      → Step s (record (initialised s) { producer = Producer.wait_slot })
  p_no_init :
      s.producer ≡ Producer.check_init
      → s.initdone ≡ true
      → Step s (record s { producer = Producer.wait_slot })
  p_wait_slot :
      s.producer ≡ Producer.wait_slot
      → 0 < s.semslots
      → Step s (record s { semslots = s.semslots - 1; producer = Producer.lock_data })
  p_lock_data :
      s.producer ≡ Producer.lock_data
      → s.data_lock ≡ DataOwner.nobody
      → Step s (record s { data_lock = DataOwner.the_producer; producer = Producer.putting })
  p_put :
      s.producer ≡ Producer.putting
      → Step s (record s {
        buffer = put_slot s.user_input_buffer s.buffer;
        put = s.put ++ (strncpy bufsize s.user_input_buffer ∷ []);
        producer = Producer.unlock_data;
      })
  p_unlock_data :
      s.producer ≡ Producer.unlock_data
      → Step s (record s { data_lock = DataOwner.nobody; producer = Producer.post_item })
  p_post :
      s.producer ≡ Producer.post_item
      → Step s (record s { semitems = suc s.semitems; producer = Producer.unlock_input })
  p_unlock_input :
      s.producer ≡ Producer.unlock_input
      → Step s (record s { input_lock = InputOwner.nobody; producer = Producer.wait_input })
  c_init :
      s.consumer ≡ Consumer.check_init
      → s.initdone ≡ false
      → Step s (record (initialised s) { consumer = Consumer.wait_item })
  c_no_init :
      s.consumer ≡ Consumer.check_init
      → s.initdone ≡ true
      → Step s (record s { consumer = Consumer.wait_item })
  c_wait :
      s.consumer ≡ Consumer.wait_item
      → 0 < s.semitems
      → Step s (record s { semitems = s.semitems - 1; consumer = Consumer.lock_data })
  c_lock :
      s.consumer ≡ Consumer.lock_data
      → s.data_lock ≡ DataOwner.nobody
      → Step s (record s { data_lock = DataOwner.the_consumer; consumer = Consumer.getting })
  c_get :
      s.consumer ≡ Consumer.getting
      → Step s (record s {
        buffer = (get_slot s.buffer).1;
        got = s.got ++ ((get_slot s.buffer).0 ∷ []);
        consumer = Consumer.unlock_data;
      })
  c_unlock :
      s.consumer ≡ Consumer.unlock_data
      → Step s (record s { data_lock = DataOwner.nobody; consumer = Consumer.post_slot })
  c_post :
      s.consumer ≡ Consumer.post_slot
      → Step s (record s { semslots = suc s.semslots; consumer = Consumer.check_init })
  d_lock :
      s.display ≡ Display.outside
      → s.data_lock ≡ DataOwner.nobody
      → Step s (record s { data_lock = DataOwner.the_display; display = Display.inside })
  d_unlock :
      s.display ≡ Display.inside
      → Step s (record s { data_lock = DataOwner.nobody; display = Display.outside })

pub data Reach : System → Type 0 where
  start : Reach initial
  later : {s t : System} → Reach s → Step s t → Reach t

infixl 5 ◌▷◌
abbrev pub ◌▷◌ : {s t : System} → Reach s → Step s t → Reach t
r ▷ st = later r st
