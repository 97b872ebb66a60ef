-- ===== src/Pool/Tasks.antt =====
-- Every task is somewhere, and the count of `wait` is that of the tasks that have not returned.
use vdb_rs.Prelude.{
  ℕ, zero, suc, ◌+◌, ◌≤◌, ◌≡◌, refl, subst, ltb, ap, true, List, [], ◌∷◌, ◌++◌, some, length,
  get_elem?, set, replicate, arith, ◌==◌, if◌then◌else◌, length-append,
}
use vdb_rs.Pool.Defs.{ThreadPool, Worker, Work, Step, Reachable, new, fresh}

-- How often a task stands in a list.
abbrev pub count : ℕ → List ℕ → ℕ
count task [] = 0
count task (t ∷ ts) = (if t == task then 1 else 0) + count task ts

count-append : (task : ℕ) (xs ys : List ℕ) → count task (xs ++ ys) ≡ count task xs + count task ys
count-append task [] ys = omega arith
count-append task (x ∷ xs) ys = omega (arith, count-append task xs ys)

-- The sum over the workers, and what replacing one does to it.
abbrev pub total : (Worker → ℕ) → List Worker → ℕ
total weight [] = 0
total weight (w ∷ ws) = weight w + total weight ws

pub total-set :
    (weight : Worker → ℕ) (ws : List Worker) (i : ℕ) (old new : Worker)
    → get_elem? ws i ≡ some old
    → total weight (set ws i new) + weight old ≡ total weight ws + weight new
total-set weight [] i old new e = cc
total-set weight (w ∷ ws) zero old new e = let same : w ≡ old = cc in omega (arith, ap weight same)
total-set weight (w ∷ ws) (suc i) old new e = omega (arith, total-set weight ws i old new e)

-- A worker that has not taken its count back; one that holds a task that has not returned.
abbrev pub counts : Worker → ℕ
counts Worker.idle = 0
counts (Worker.running t) = 1
counts (Worker.ran t) = 1
counts Worker.exited = 0
counts (Worker.dead t) = 1

abbrev pub holds : ℕ → Worker → ℕ
holds task Worker.idle = 0
holds task (Worker.running t) = if t == task then 1 else 0
holds task (Worker.ran t) = 0
holds task Worker.exited = 0
holds task (Worker.dead t) = if t == task then 1 else 0

abbrev pub is_dead : Worker → ℕ
is_dead (Worker.dead t) = 1
is_dead _ = 0

-- The count is of the tasks counted, queued and held, and each task submitted is counted, queued,
-- held or finished, as often as it was submitted.
pub record IsAccounted (pool : ThreadPool) : Type 0 where
  pub active_sum : pool.active ≡ length pool.counted + length pool.queue + total counts pool.workers
  pub tasks_sum :
      (task : ℕ)
      → count task pool.submitted
        ≡ count task pool.counted
          + count task pool.queue
          + total (holds task) pool.workers
          + count task pool.finished

pub total-replicate :
    (weight : Worker → ℕ) (n : ℕ)
    → weight Worker.idle ≡ 0
    → total weight (replicate n Worker.idle) ≡ 0
total-replicate weight zero h = refl
total-replicate weight (suc n) h = omega (arith, h, total-replicate weight n h)

-- A new pool has workers, and is fresh.
pub new-fresh :
    (size : ℕ) (pool : ThreadPool) → new size ≡ some pool → (1 ≤ size) × (fresh size ≡ pool)
unfolding new
new-fresh zero pool h = cc
new-fresh (suc size) pool h =
    let positive : ltb 0 (suc size) ≡ true = ground arith in
    let same : some (fresh (suc size)) ≡ some pool = rw positive at h in (omega arith, cc)

fresh-IsAccounted : (size : ℕ) → IsAccounted (fresh size)
fresh-IsAccounted size = record {
  active_sum = omega (arith, total-replicate counts size refl);
  tasks_sum = λ task. omega (arith, total-replicate (holds task) size refl);
}

Work-IsAccounted : (pool next : ThreadPool) → Work pool next → IsAccounted pool → IsAccounted next
Work-IsAccounted pool next (Work.send task rest j worker e l g) h = record {
  active_sum = omega (arith, h.active_sum, ap length e, length-append pool.queue (task ∷ []));
  tasks_sum =
      λ t. omega (arith, h.tasks_sum t, ap (count t) e, count-append t pool.queue (task ∷ []));
}
Work-IsAccounted pool next (Work.receive i task rest w e) h = record {
  active_sum = omega (
    arith,
    h.active_sum,
    ap length e,
    total-set counts pool.workers i Worker.idle (Worker.running task) w,
  );
  tasks_sum = λ t. omega (
    arith,
    h.tasks_sum t,
    ap (count t) e,
    total-set (holds t) pool.workers i Worker.idle (Worker.running task) w,
  );
}
Work-IsAccounted pool next (Work.run i task w) h = record {
  active_sum = omega (
    arith,
    h.active_sum,
    total-set counts pool.workers i (Worker.running task) (Worker.ran task) w,
  );
  tasks_sum = λ t. omega (
    arith,
    h.tasks_sum t,
    total-set (holds t) pool.workers i (Worker.running task) (Worker.ran task) w,
  );
}
Work-IsAccounted pool next (Work.settle i task w) h = record {
  active_sum =
      omega (arith, h.active_sum, total-set counts pool.workers i (Worker.ran task) Worker.idle w);
  tasks_sum = λ t.
      omega
        (arith, h.tasks_sum t, total-set (holds t) pool.workers i (Worker.ran task) Worker.idle w);
}
Work-IsAccounted pool next (Work.sleep others e o) h = record {
  active_sum = h.active_sum;
  tasks_sum = h.tasks_sum;
}
Work-IsAccounted pool next (Work.return others e o) h = record {
  active_sum = h.active_sum;
  tasks_sum = h.tasks_sum;
}

Step-IsAccounted : (pool next : ThreadPool) → Step pool next → IsAccounted pool → IsAccounted next
Step-IsAccounted pool next (Step.work w) h = Work-IsAccounted pool next w h
Step-IsAccounted pool next (Step.execute task o) h = record {
  active_sum = omega (arith, h.active_sum);
  tasks_sum = λ t. omega (arith, h.tasks_sum t);
}
Step-IsAccounted pool next Step.wait h = record {
  active_sum = h.active_sum;
  tasks_sum = h.tasks_sum;
}
Step-IsAccounted pool next (Step.wake others e) h = record {
  active_sum = h.active_sum;
  tasks_sum = h.tasks_sum;
}
Step-IsAccounted pool next (Step.panics i task w) h = record {
  active_sum = omega (
    arith,
    h.active_sum,
    total-set counts pool.workers i (Worker.running task) (Worker.dead task) w,
  );
  tasks_sum = λ t. omega (
    arith,
    h.tasks_sum t,
    total-set (holds t) pool.workers i (Worker.running task) (Worker.dead task) w,
  );
}
Step-IsAccounted pool next (Step.close e) h = record {
  active_sum = h.active_sum;
  tasks_sum = h.tasks_sum;
}
Step-IsAccounted pool next (Step.exit i o q w) h = record {
  active_sum =
      omega (arith, h.active_sum, total-set counts pool.workers i Worker.idle Worker.exited w);
  tasks_sum = λ t.
      omega (arith, h.tasks_sum t, total-set (holds t) pool.workers i Worker.idle Worker.exited w);
}

pub Reachable-IsAccounted : (size : ℕ) (pool : ThreadPool) → Reachable size pool → IsAccounted pool
Reachable-IsAccounted size pool (Reachable.start e) =
    subst IsAccounted (new-fresh size pool e).1 (fresh-IsAccounted size)
Reachable-IsAccounted size pool (Reachable.later {pool = before} r s) =
    Step-IsAccounted before pool s (Reachable-IsAccounted size before r)
