-- ===== src/Pool/Defs.antt =====
-- `ThreadPool` of src/thread_pool.rs as a system of steps, in any order: those of the threads that
-- submit tasks, of the workers, and of `join`. A task is a number; what it does is left open, also
-- whether it panics.
use vdb_rs.Prelude.{
  ℕ, suc, ◌+◌, ◌-◌, ◌≡◌, Bool, not, ltb, true, false, List, [], ◌∷◌, ◌++◌, some, get_elem?, set,
  replicate,
}
use vdb_rs.Prelude.Panic.{Panics, ◌>>◌, assert}

-- What a worker is at: waiting in `recv`, in a task, after the task and before its count is taken
-- back, out of its loop, or gone with the panic of a task.
pub data Worker : Type 0 where
  idle : Worker
  running : ℕ → Worker
  ran : ℕ → Worker
  exited : Worker
  dead : ℕ → Worker

-- `checking` and `sleeping` are the numbers of threads in `wait`: at the test of its loop, or asleep
-- in `cvar.wait`. `counted` are the tasks that `execute` has counted and not yet sent; `submitted` and `finished`
-- say which tasks were given to `execute` and which have returned.
pub record ThreadPool : Type 0 where
  pub sender_open : Bool
  pub queue : List ℕ
  pub workers : List Worker
  pub active : ℕ
  pub checking : ℕ
  pub sleeping : ℕ
  pub counted : List ℕ
  pub submitted : List ℕ
  pub finished : List ℕ

-- A pool before its first task.
abbrev pub fresh : ℕ → ThreadPool
fresh size = record {
  sender_open = true;
  queue = [];
  workers = replicate size Worker.idle;
  active = 0;
  checking = 0;
  sleeping = 0;
  counted = [];
  submitted = [];
  finished = [];
}

-- `ThreadPool::new`
unfoldable pub new : ℕ → Panics ThreadPool
new size = do assert (ltb 0 size); some (fresh size)

-- The first lock of `execute`.
abbrev pub count_task : ℕ → ThreadPool → ThreadPool
count_task task pool = record pool {
  active = pool.active + 1;
  counted = task ∷ pool.counted;
  submitted = task ∷ pool.submitted;
}

-- A worker's state set to another.
abbrev pub set_worker : ℕ → Worker → ThreadPool → ThreadPool
set_worker i worker pool = record pool { workers = set pool.workers i worker }

-- A worker that is out of its loop. When all are, the receiver is gone, and `send` fails.
abbrev pub is_gone : Worker → Bool
is_gone Worker.exited = true
is_gone (Worker.dead task) = true
is_gone _ = false

-- Whether the loop of `wait` is over: it goes on while the count is above zero.
unfoldable pub wait_over : ThreadPool → Bool
wait_over pool = not (ltb 0 pool.active)

-- The steps that bring the tasks on: `send` at the end of `execute`, `recv`, the task itself, and
-- the end of the closure, which takes the count back and wakes all that sleep; and the test of the
-- loop in `wait`, which goes to sleep or returns. Without a worker the thread that sends panics, and
-- its task stays where it is, counted and not sent.
pub data Work (pool : ThreadPool) : ThreadPool → Type 0 where
  send :
      (task : ℕ) (rest : List ℕ) (i : ℕ) (worker : Worker)
      → pool.counted ≡ task ∷ rest
      → get_elem? pool.workers i ≡ some worker
      → is_gone worker ≡ false
      → Work pool (record pool { counted = rest; queue = pool.queue ++ task ∷ [] })
  receive :
      (i task : ℕ) (rest : List ℕ)
      → get_elem? pool.workers i ≡ some Worker.idle
      → pool.queue ≡ task ∷ rest
      → Work pool (record pool { queue = rest; workers = set pool.workers i (Worker.running task) })
  run :
      (i task : ℕ)
      → get_elem? pool.workers i ≡ some (Worker.running task)
      → Work pool (record pool {
        workers = set pool.workers i (Worker.ran task);
        finished = task ∷ pool.finished;
      })
  settle :
      (i task : ℕ)
      → get_elem? pool.workers i ≡ some (Worker.ran task)
      → Work pool (record pool {
        workers = set pool.workers i Worker.idle;
        active = pool.active - 1;
        checking = pool.checking + pool.sleeping;
        sleeping = 0;
      })
  sleep :
      (others : ℕ)
      → pool.checking ≡ suc others
      → wait_over pool ≡ false
      → Work pool (record pool { checking = others; sleeping = pool.sleeping + 1 })
  return :
      (others : ℕ)
      → pool.checking ≡ suc others
      → wait_over pool ≡ true
      → Work pool (record pool { checking = others })

-- Every step: those, the start of `execute` and of `wait`, a sleeper that wakes up for no reason, a
-- task that panics and takes its worker with it, and the two of `join`, which has the pool for
-- itself: the sender is dropped, and the workers leave.
pub data Step (pool : ThreadPool) : ThreadPool → Type 0 where
  work : {next : ThreadPool} → Work pool next → Step pool next
  execute : (task : ℕ) → pool.sender_open ≡ true → Step pool (count_task task pool)
  wait : Step pool (record pool { checking = pool.checking + 1 })
  wake :
      (others : ℕ)
      → pool.sleeping ≡ suc others
      → Step pool (record pool { checking = pool.checking + 1; sleeping = others })
  panics :
      (i task : ℕ)
      → get_elem? pool.workers i ≡ some (Worker.running task)
      → Step pool (set_worker i (Worker.dead task) pool)
  close : pool.counted ≡ [] → Step pool (record pool { sender_open = false })
  exit :
      (i : ℕ)
      → pool.sender_open ≡ false
      → pool.queue ≡ []
      → get_elem? pool.workers i ≡ some Worker.idle
      → Step pool (set_worker i Worker.exited pool)

-- The states of a pool of a given size.
pub data Reachable (size : ℕ) : ThreadPool → Type 0 where
  start : {pool : ThreadPool} → new size ≡ some pool → Reachable size pool
  later : {pool next : ThreadPool} → Reachable size pool → Step pool next → Reachable size next

-- Any steps, one after the other; and steps that bring the tasks on, with their number.
pub data Steps (pool : ThreadPool) : ThreadPool → Type 0 where
  none : Steps pool pool
  then : {mid next : ThreadPool} → Steps pool mid → Step mid next → Steps pool next

pub data Works (pool : ThreadPool) : ℕ → ThreadPool → Type 0 where
  none : Works pool 0 pool
  then :
      {n : ℕ} {mid next : ThreadPool} → Works pool n mid → Work mid next → Works pool (suc n) next
