-- ===== src/Pool/Drain.antt =====
-- Without a panic the tasks come to an end, in whatever order the threads take their steps.
use native.Mathlib.Nat.{mul-le-mul}
use vdb_rs.Prelude.{
  ℕ, zero, suc, Bool, false, ◌+◌, ◌*◌, ◌≤◌, ◌<◌, ◌≡◌, refl, ap, ◌∙◌, ◌⊎◌, inl, inr, true, List, [],
  ◌∷◌, some, length, get_elem?, arith, length-append,
}
use vdb_rs.Pool.Defs.{ThreadPool, Worker, Work, Works, Step, Reachable, wait_over}
use vdb_rs.Pool.Tasks.{total, total-set, counts, is_dead, IsAccounted, Reachable-IsAccounted}
use vdb_rs.Pool.Wait.{is_dead-Work}
use vdb_rs.Pool.Manned.{has_exited, Work-IsManned, Reachable-IsManned}

-- The steps that a task has before it, from where it is.
abbrev pub steps_left : Worker → ℕ
steps_left (Worker.running t) = 2
steps_left (Worker.ran t) = 1
steps_left _ = 0

abbrev pub work_left : ThreadPool → ℕ
work_left pool = 4 * length pool.counted + 3 * length pool.queue + total steps_left pool.workers

-- With so many threads in `wait`, each end of a task may send all of them to the test again.
abbrev pub moves_left : ℕ → ThreadPool → ℕ
moves_left callers pool = work_left pool * suc callers + pool.checking

-- A step that brings a task on outweighs the tests that follow.
outweighs :
    (callers less more checks awake : ℕ)
    → less < more
    → checks ≤ callers
    → less * suc callers + checks < more * suc callers + awake
outweighs callers less more checks awake lt le =
    let scaled : suc less * suc callers ≤ more * suc callers =
      mul-le-mul {n₁ = suc less} {m₁ = suc callers} {n₂ = more} {m₂ = suc callers} lt
        (omega arith) in
    let next : suc less * suc callers ≡ less * suc callers + suc callers = omega arith in
    omega (arith, scaled, next)

Work-lt :
    (callers : ℕ) (pool next : ThreadPool)
    → pool.checking + pool.sleeping ≤ callers
    → Work pool next
    → (moves_left callers next < moves_left callers pool)
      × (next.checking + next.sleeping ≤ callers)
Work-lt callers pool next c (Work.send task rest j worker e l g) = (
  outweighs callers (work_left next) (work_left pool) next.checking pool.checking
      (omega (arith, ap length e, length-append pool.queue (task ∷ []))) (omega arith),
  c,
)
Work-lt callers pool next c (Work.receive i task rest w e) = (
  outweighs callers (work_left next) (work_left pool) next.checking pool.checking
      (omega (
        arith,
        ap length e,
        total-set steps_left pool.workers i Worker.idle (Worker.running task) w,
      ))
      (omega arith),
  c,
)
Work-lt callers pool next c (Work.run i task w) = (
  outweighs callers (work_left next) (work_left pool) next.checking pool.checking
      (omega (arith, total-set steps_left pool.workers i (Worker.running task) (Worker.ran task) w))
      (omega arith),
  c,
)
Work-lt callers pool next c (Work.settle i task w) = (
  outweighs callers (work_left next) (work_left pool) next.checking pool.checking
      (omega (arith, total-set steps_left pool.workers i (Worker.ran task) Worker.idle w)) c,
  omega arith,
)
Work-lt callers pool next c (Work.sleep others e o) = (omega (arith, e), omega (arith, e))
Work-lt callers pool next c (Work.return others e o) = (omega (arith, e), omega (arith, e))

-- Some worker has a step to take, or all of them wait for a task.
data Found (workers : List Worker) : Type 0 where
  runs : (i task : ℕ) → get_elem? workers i ≡ some (Worker.running task) → Found workers
  ends : (i task : ℕ) → get_elem? workers i ≡ some (Worker.ran task) → Found workers
  all_idle :
      total counts workers ≡ 0
      → (1 ≤ length workers → get_elem? workers 0 ≡ some Worker.idle)
      → Found workers

find_worker :
    (workers : List Worker)
    → total is_dead workers ≡ 0
    → total has_exited workers ≡ 0
    → Found workers
find_worker [] d e = Found.all_idle refl (λ h. absurd (omega arith))
find_worker (Worker.running t ∷ ws) d e = Found.runs 0 t refl
find_worker (Worker.ran t ∷ ws) d e = Found.ends 0 t refl
find_worker (Worker.exited ∷ ws) d e = absurd (omega arith)
find_worker (Worker.dead t ∷ ws) d e = absurd (omega arith)
find_worker (Worker.idle ∷ ws) d e = elim (find_worker ws (omega arith) (omega arith)) [
  | Found.runs i t h ↦ Found.runs (suc i) t h
  | Found.ends i t h ↦ Found.ends (suc i) t h
  | Found.all_idle h f ↦ Found.all_idle (omega arith) (λ g. refl)
]

-- Where no worker is gone and a count is above zero, a task has a step to take.
task_step :
    (pool : ThreadPool)
    → IsAccounted pool
    → 1 ≤ length pool.workers
    → total is_dead pool.workers ≡ 0
    → total has_exited pool.workers ≡ 0
    → 1 ≤ pool.active
    → (next : ThreadPool) × Work pool next
task_step pool h one d e active = idle_workers (find_worker pool.workers d e)
  where
    idle_queue :
        (queue counted : List ℕ)
        → pool.queue ≡ queue
        → pool.counted ≡ counted
        → total counts pool.workers ≡ 0
        → get_elem? pool.workers 0 ≡ some Worker.idle
        → (next : ThreadPool) × Work pool next
    idle_queue queue (task ∷ rest) q c n w = (_, Work.send task rest 0 Worker.idle c w refl)
    idle_queue (task ∷ rest) [] q c n w = (_, Work.receive 0 task rest w q)
    idle_queue [] [] q c n w =
        absurd (omega (arith, h.active_sum, ap length q, ap length c, n, active))

    idle_workers : Found pool.workers → (next : ThreadPool) × Work pool next
    idle_workers (Found.runs i task w) = (_, Work.run i task w)
    idle_workers (Found.ends i task w) = (_, Work.settle i task w)
    idle_workers (Found.all_idle n first) =
        idle_queue pool.queue pool.counted refl refl n (first one)

-- Some step is possible until no thread is in `wait`.
progress :
    (pool : ThreadPool)
    → IsAccounted pool
    → 1 ≤ length pool.workers
    → total is_dead pool.workers ≡ 0
    → total has_exited pool.workers ≡ 0
    → (1 ≤ pool.sleeping → 1 ≤ pool.active)
    → ((pool.checking ≡ 0) × (pool.sleeping ≡ 0)) ⊎ ((next : ThreadPool) × Work pool next)
progress pool h one d e some_active =
    split pool.checking refl pool.sleeping refl (wait_over pool) refl
  where
    split :
        (checking : ℕ)
        → pool.checking ≡ checking
        → (sleeping : ℕ) → pool.sleeping ≡ sleeping
        → (over : Bool) → wait_over pool ≡ over
        → ((pool.checking ≡ 0) × (pool.sleeping ≡ 0)) ⊎ ((next : ThreadPool) × Work pool next)
    split zero c zero s over o = inl (c, s)
    split zero c (suc sleeping) s over o =
        inr (task_step pool h one d e (some_active (omega (arith, s))))
    split (suc others) c sleeping s true o = inr (_, Work.return others c o)
    split (suc others) c sleeping s false o = inr (_, Work.sleep others c o)

-- What holds along the steps that bring the tasks on.
record IsSound (size : ℕ) (pool : ThreadPool) : Type 0 where
  pub reachable : Reachable size pool
  pub is_open : pool.sender_open ≡ true
  pub none_dead : total is_dead pool.workers ≡ 0

Works-IsSound :
    (size callers : ℕ) (pool : ThreadPool) (n : ℕ) (left : ThreadPool)
    → IsSound size pool
    → pool.checking + pool.sleeping ≤ callers
    → Works pool n left
    → IsSound size left
      × (n + moves_left callers left ≤ moves_left callers pool)
      × (left.checking + left.sleeping ≤ callers)
Works-IsSound size callers pool n left h c Works.none = (h, omega arith, c)
Works-IsSound size callers pool n left h c (Works.then {n = m} {mid = mid} ws w) =
    let (sound, less, few) = Works-IsSound size callers pool m mid h c ws in
    let (manned, same) =
      Work-IsManned size mid left w (Reachable-IsManned size mid sound.reachable) in
    let (lt, fewer) = Work-lt callers mid left few w in
    (
      record {
        reachable = Reachable.later sound.reachable (Step.work w);
        is_open = same ∙ sound.is_open;
        none_dead = is_dead-Work mid left w ∙ sound.none_dead;
      },
      omega (arith, less, lt),
      fewer,
    )

-- In a pool whose sender is there and none of whose workers has died of a panic, no order of the
-- steps of its tasks and of the threads in `wait` goes on for ever: their number is bounded by the
-- moves left. And wherever they stop for want of a step, no thread is in `wait` any more, neither at
-- its test nor asleep.
pub Works-wait_over :
    (size n : ℕ) (pool left : ThreadPool)
    → Reachable size pool
    → pool.sender_open ≡ true
    → total is_dead pool.workers ≡ 0
    → Works pool n left
    → let callers = pool.checking + pool.sleeping in
      (n + moves_left callers left ≤ moves_left callers pool)
      × (((left.checking ≡ 0) × (left.sleeping ≡ 0)) ⊎ ((next : ThreadPool) × Work left next))
Works-wait_over size n pool left r o d ws =
    let callers = pool.checking + pool.sleeping in
    let (sound, less, few) =
      Works-IsSound size callers pool n left (record { reachable = r; is_open = o; none_dead = d })
        (omega arith) ws in
    let manned = Reachable-IsManned size left sound.reachable in
    (
      less,
      progress left (Reachable-IsAccounted size left sound.reachable)
          (omega (arith, manned.worker_count, manned.some_worker)) sound.none_dead
          (manned.none_exited sound.is_open) manned.some_active,
    )
