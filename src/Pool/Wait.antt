-- ===== src/Pool/Wait.antt =====
-- What `wait` of src/thread_pool.rs promises, and when it never returns.
use vdb_rs.Prelude.{ℕ, ◌≤◌, ◌≡◌, refl, true, false, List, [], ◌∷◌, some, length, get_elem?, arith}
use vdb_rs.Pool.Defs.{ThreadPool, Worker, Work, Step, Steps, Reachable, wait_over}
use vdb_rs.Pool.Tasks.{count, counts, holds, is_dead, total, total-set, Reachable-IsAccounted}

count-length : (task : ℕ) (xs : List ℕ) → count task xs ≤ length xs
count-length task [] = omega arith
count-length task (x ∷ xs) = ground (arith, count-length task xs)

total_le :
    (small large : Worker → ℕ) (ws : List Worker)
    → ((w : Worker) → small w ≤ large w)
    → total small ws ≤ total large ws
total_le small large [] h = omega arith
total_le small large (w ∷ ws) h = omega (arith, h w, total_le small large ws h)

holds_le : (task : ℕ) (w : Worker) → holds task w ≤ counts w
holds_le task Worker.idle = omega arith
holds_le task (Worker.running t) = ground arith
holds_le task (Worker.ran t) = omega arith
holds_le task Worker.exited = omega arith
holds_le task (Worker.dead t) = ground arith

pub is_dead_le : (w : Worker) → is_dead w ≤ counts w
is_dead_le Worker.idle = omega arith
is_dead_le (Worker.running t) = omega arith
is_dead_le (Worker.ran t) = omega arith
is_dead_le Worker.exited = omega arith
is_dead_le (Worker.dead t) = omega arith

-- In every state that the pool can reach, in any order of the threads' steps, `wait` returns only
-- when each task that was submitted has finished, as often as it was submitted.
pub wait_over-finished :
    (size : ℕ) (pool : ThreadPool) (task : ℕ)
    → Reachable size pool
    → wait_over pool ≡ true
    → count task pool.finished ≡ count task pool.submitted
unfolding wait_over
wait_over-finished size pool task r over =
    let h = Reachable-IsAccounted size pool r in
    let zero_active : pool.active ≡ 0 = ground arith in
    omega (
      arith,
      zero_active,
      h.active_sum,
      h.tasks_sum task,
      count-length task pool.counted,
      count-length task pool.queue,
      total_le (holds task) counts pool.workers (holds_le task),
    )

pub is_dead-Work :
    (pool next : ThreadPool)
    → Work pool next
    → total is_dead next.workers ≡ total is_dead pool.workers
is_dead-Work pool next (Work.send task rest j worker e l g) = refl
is_dead-Work pool next (Work.receive i task rest w e) =
    omega (arith, total-set is_dead pool.workers i Worker.idle (Worker.running task) w)
is_dead-Work pool next (Work.run i task w) =
    omega (arith, total-set is_dead pool.workers i (Worker.running task) (Worker.ran task) w)
is_dead-Work pool next (Work.settle i task w) =
    omega (arith, total-set is_dead pool.workers i (Worker.ran task) Worker.idle w)
is_dead-Work pool next (Work.sleep others e o) = refl
is_dead-Work pool next (Work.return others e o) = refl

is_dead-Step :
    (pool next : ThreadPool)
    → Step pool next
    → total is_dead pool.workers ≤ total is_dead next.workers
is_dead-Step pool next (Step.work w) = omega (arith, is_dead-Work pool next w)
is_dead-Step pool next (Step.execute task o) = omega arith
is_dead-Step pool next Step.wait = omega arith
is_dead-Step pool next (Step.wake others e) = omega arith
is_dead-Step pool next (Step.panics i task w) =
    omega (arith, total-set is_dead pool.workers i (Worker.running task) (Worker.dead task) w)
is_dead-Step pool next (Step.close e) = omega arith
is_dead-Step pool next (Step.exit i o q w) =
    omega (arith, total-set is_dead pool.workers i Worker.idle Worker.exited w)

-- The states that follow are reachable, and no worker comes back from the dead.
Steps-Reachable :
    (size : ℕ) (pool left : ThreadPool)
    → Reachable size pool
    → Steps pool left
    → Reachable size left × (total is_dead pool.workers ≤ total is_dead left.workers)
Steps-Reachable size pool left r Steps.none = (r, omega arith)
Steps-Reachable size pool left r (Steps.then {mid = mid} s step) =
    let (there, dead) = Steps-Reachable size pool mid r s in
    (Reachable.later there step, omega (arith, dead, is_dead-Step mid left step))

-- Once a task has panicked, `wait` does not return any more, whatever steps follow.
pub wait_over-dead :
    (size : ℕ) (pool left : ThreadPool) (i task : ℕ)
    → Reachable size pool
    → get_elem? pool.workers i ≡ some (Worker.dead task)
    → Steps pool left
    → wait_over left ≡ false
unfolding wait_over
wait_over-dead size pool left i task r d s =
    let (there, dead) = Steps-Reachable size pool left r s in
    let h = Reachable-IsAccounted size left there in
    let one = total-set is_dead pool.workers i (Worker.dead task) Worker.idle d in
    let some_active : 1 ≤ left.active =
      omega (arith, dead, one, h.active_sum, total_le is_dead counts left.workers is_dead_le) in
    ground arith
