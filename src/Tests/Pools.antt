-- ===== src/Tests/Pools.antt =====
-- A pool of two workers, for the theorems on src/thread_pool.rs.
use vdb_rs.Prelude.{◌+◌, ◌≤◌, ◌≡◌, ◌⊎◌, refl, true, false, List, [], ◌∷◌}
use vdb_rs.Pool.Defs.{
  ThreadPool, Worker, Work, Works, Step, Steps, Reachable, new, wait_over, count_task,
}
use vdb_rs.Pool.Tasks.{count}
use vdb_rs.Pool.Wait.{wait_over-finished, wait_over-dead}
use vdb_rs.Pool.Drain.{moves_left, Works-wait_over}

abbrev workers : Worker → List Worker
workers first = first ∷ Worker.idle ∷ []

-- The task 7 is submitted, sent, taken by the first worker, run and counted back.
abbrev submitted : ThreadPool
submitted = record {
  sender_open = true;
  queue = [];
  workers = workers Worker.idle;
  active = 1;
  checking = 0;
  sleeping = 0;
  counted = 7 ∷ [];
  submitted = 7 ∷ [];
  finished = [];
}

abbrev taken : ThreadPool
taken = record submitted { counted = []; workers = workers (Worker.running 7) }

abbrev done : ThreadPool
done = record taken { active = 0; workers = workers Worker.idle; finished = 7 ∷ [] }

abbrev gone : ThreadPool
gone = record taken { workers = workers (Worker.dead 7) }

submitted_reachable : Reachable 2 submitted
unfolding new
submitted_reachable = Reachable.later (Reachable.start refl) (Step.execute 7 refl)

-- A thread calls `wait` before the task is sent, and falls asleep after it was taken.
abbrev waited : ThreadPool
waited = record submitted { checking = 1 }

abbrev asleep : ThreadPool
asleep = record taken { sleeping = 1 }

waited_reachable : Reachable 2 waited
waited_reachable = Reachable.later submitted_reachable Step.wait

asleep-Works : Works waited 3 asleep
unfolding wait_over
asleep-Works =
    Works.then
      (Works.then (Works.then Works.none (Work.send 7 [] 0 Worker.idle refl refl refl))
        (Work.receive 0 7 [] refl refl))
      (Work.sleep 0 refl refl)

taken_reachable : Reachable 2 taken
taken_reachable =
    Reachable.later
      (Reachable.later submitted_reachable
        (Step.work (Work.send 7 [] 0 Worker.idle refl refl refl)))
      (Step.work (Work.receive 0 7 [] refl refl))

done_reachable : Reachable 2 done
done_reachable =
    Reachable.later (Reachable.later taken_reachable (Step.work (Work.run 0 7 refl)))
      (Step.work (Work.settle 0 7 refl))

done_over : wait_over done ≡ true
unfolding wait_over
done_over = refl

wait_over-finished_example : count 7 done.finished ≡ count 7 done.submitted
wait_over-finished_example = wait_over-finished 2 done 7 done_reachable done_over

-- Another task is submitted after the panic.
wait_over-dead_example : wait_over (count_task 8 gone) ≡ false
wait_over-dead_example =
    wait_over-dead 2 gone (count_task 8 gone) 0 7
      (Reachable.later taken_reachable (Step.panics 0 7 refl)) refl
      (Steps.then Steps.none (Step.execute 8 refl))

Works-wait_over_example :
    (3 + moves_left 1 asleep ≤ moves_left 1 waited)
    × (((asleep.checking ≡ 0) × (asleep.sleeping ≡ 0)) ⊎ ((next : ThreadPool) × Work asleep next))
Works-wait_over_example = Works-wait_over 2 3 waited asleep waited_reachable refl refl asleep-Works
