-- ===== src/Pool/Manned.antt =====
-- The workers of a pool, and the threads that sleep in `wait`.

use vdb_rs.Prelude.{
  ℕ, false, ◌≤◌, ◌≡◌, refl, subst, ◌∙◌, true, length, arith, length-set, length-replicate,
}
use vdb_rs.Pool.Defs.{ThreadPool, Worker, Work, Step, Reachable, wait_over}
use vdb_rs.Pool.Tasks.{total, total-set, total-replicate, new-fresh}

abbrev pub has_exited : Worker → ℕ
has_exited Worker.exited = 1
has_exited _ = 0

-- The number of workers stays, none leaves its loop while the sender is there, and no thread sleeps
-- in `wait` while the count is zero: the end of the last task wakes it.
pub record IsManned (size : ℕ) (pool : ThreadPool) : Type 0 where
  pub some_worker : 1 ≤ size
  pub worker_count : length pool.workers ≡ size
  pub none_exited : pool.sender_open ≡ true → total has_exited pool.workers ≡ 0
  pub some_active : 1 ≤ pool.sleeping → 1 ≤ pool.active

still_active : (pool : ThreadPool) → wait_over pool ≡ false → 1 ≤ pool.active
unfolding wait_over
still_active pool o = ground arith

pub Work-IsManned :
    (size : ℕ) (pool next : ThreadPool)
    → Work pool next
    → IsManned size pool
    → IsManned size next × (next.sender_open ≡ pool.sender_open)
Work-IsManned size pool next (Work.send task rest j worker e l g) h = (
  record {
    some_worker = h.some_worker;
    worker_count = h.worker_count;
    none_exited = h.none_exited;
    some_active = h.some_active;
  },
  refl,
)
Work-IsManned size pool next (Work.receive i task rest w e) h = (
  record {
    some_worker = h.some_worker;
    worker_count = length-set pool.workers i (Worker.running task) ∙ h.worker_count;
    none_exited = λ o. omega (
      arith,
      h.none_exited o,
      total-set has_exited pool.workers i Worker.idle (Worker.running task) w,
    );
    some_active = h.some_active;
  },
  refl,
)
Work-IsManned size pool next (Work.run i task w) h = (
  record {
    some_worker = h.some_worker;
    worker_count = length-set pool.workers i (Worker.ran task) ∙ h.worker_count;
    none_exited = λ o. omega (
      arith,
      h.none_exited o,
      total-set has_exited pool.workers i (Worker.running task) (Worker.ran task) w,
    );
    some_active = h.some_active;
  },
  refl,
)
Work-IsManned size pool next (Work.settle i task w) h = (
  record {
    some_worker = h.some_worker;
    worker_count = length-set pool.workers i Worker.idle ∙ h.worker_count;
    none_exited = λ o. omega (
      arith,
      h.none_exited o,
      total-set has_exited pool.workers i (Worker.ran task) Worker.idle w,
    );
    some_active = λ o. absurd (omega (arith, o));
  },
  refl,
)
Work-IsManned size pool next (Work.sleep others e o) h = (
  record {
    some_worker = h.some_worker;
    worker_count = h.worker_count;
    none_exited = h.none_exited;
    some_active = λ s. still_active pool o;
  },
  refl,
)
Work-IsManned size pool next (Work.return others e o) h = (
  record {
    some_worker = h.some_worker;
    worker_count = h.worker_count;
    none_exited = h.none_exited;
    some_active = h.some_active;
  },
  refl,
)

Step-IsManned :
    (size : ℕ) (pool next : ThreadPool) → Step pool next → IsManned size pool → IsManned size next
Step-IsManned size pool next (Step.work w) h = (Work-IsManned size pool next w h).0
Step-IsManned size pool next (Step.execute task o) h = record {
  some_worker = h.some_worker;
  worker_count = h.worker_count;
  none_exited = h.none_exited;
  some_active = λ s. omega arith;
}
Step-IsManned size pool next Step.wait h = record {
  some_worker = h.some_worker;
  worker_count = h.worker_count;
  none_exited = h.none_exited;
  some_active = h.some_active;
}
Step-IsManned size pool next (Step.wake others e) h = record {
  some_worker = h.some_worker;
  worker_count = h.worker_count;
  none_exited = h.none_exited;
  some_active = λ s. h.some_active (omega (arith, e));
}
Step-IsManned size pool next (Step.panics i task w) h = record {
  some_worker = h.some_worker;
  worker_count = length-set pool.workers i (Worker.dead task) ∙ h.worker_count;
  none_exited = λ o. omega (
    arith,
    h.none_exited o,
    total-set has_exited pool.workers i (Worker.running task) (Worker.dead task) w,
  );
  some_active = h.some_active;
}
Step-IsManned size pool next (Step.close e) h = record {
  some_worker = h.some_worker;
  worker_count = h.worker_count;
  none_exited = λ o. cc;
  some_active = h.some_active;
}
Step-IsManned size pool next (Step.exit i o q w) h = record {
  some_worker = h.some_worker;
  worker_count = length-set pool.workers i Worker.exited ∙ h.worker_count;
  none_exited = λ s. cc;
  some_active = h.some_active;
}

pub Reachable-IsManned : (size : ℕ) (pool : ThreadPool) → Reachable size pool → IsManned size pool
Reachable-IsManned size pool (Reachable.start e) =
    let made = new-fresh size pool e in
    subst (IsManned size) made.1 (record {
      some_worker = made.0;
      worker_count = length-replicate size Worker.idle;
      none_exited = λ o. total-replicate has_exited size refl;
      some_active = λ s. absurd (omega (arith, s));
    })
Reachable-IsManned size pool (Reachable.later {pool = before} r s) =
    Step-IsManned size before pool s (Reachable-IsManned size before r)
