-- ===== src/Tests/Managers.antt =====
-- A manager with one submitted simulation.
use aowis_server_epanet.Base.{ℕ, ◌≡◌, refl, true, false, [], ◌∷◌, ◌++◌, arith}
use aowis_server_epanet.Manager.{
  Task, registered, starting, Manager, register, queue_task, start_task, finish_task,
  post_completed, cancel, cancel_all, poll, active_simulation_count,
}
use aowis_server_epanet.Manager.Steps.{
  registers, queues, takes, starts, finishes, posts, cancels_all, Reachable, fresh, next,
}
use aowis_server_epanet.Manager.Flags.{OwnFlags}
use aowis_server_epanet.Manager.Registered.{Sound}
use aowis_server_epanet.Manager.Safety.{threads-Sound}
use aowis_server_epanet.Manager.Entries.{threads-Entries}
use aowis_server_epanet.Manager.Signals.{about, stage_of, Reported, all_signals}
use aowis_server_epanet.Manager.Ordered.{History, created, goes_on, signals-InOrder}
use aowis_server_epanet.Manager.Cancellation.{now, after_step, cancel-seen}

abbrev idle : Manager ℕ ℕ
idle = record {
  cancellation_flags = [];
  flags = [];
  tasks = [];
  shutting_down = false;
  posted = [];
  signals = [];
  max_thread_count = 2;
}

abbrev one_task : Manager ℕ ℕ
one_task = register 5 40 idle

abbrev task_five : Task ℕ
task_five = record { simulation_id = 5; request = 40; cancellation_flag = 0 }

one_reached : Reachable one_task
one_reached = next (fresh idle refl refl) (registers idle 5 40 tt)

threads_example : Sound one_task × OwnFlags one_task
threads_example = threads-Sound one_task one_reached

one_listed : one_task.tasks ≡ [] ++ (task_five, registered) ∷ []
unfolding register
one_listed = refl

cancel_example :
    ((cancel 5 one_task).0 ≡ true) × (poll task_five (cancel_all (cancel 5 one_task).1) ≡ true)
cancel_example =
    cancel-seen one_task (cancel_all (cancel 5 one_task).1) [] [] task_five registered one_reached
      one_listed tt (after_step (cancels_all (cancel 5 one_task).1) (now _))

entries_example :
    (one_task.cancellation_flags ≡ (5, 0) ∷ []) × (active_simulation_count one_task ≡ 1)
unfolding register
entries_example = threads-Entries one_task one_reached refl

-- The simulation is queued, taken, started, finished with a result, posted and delivered.
abbrev one_waiting : Manager ℕ ℕ
one_waiting = queue_task [] task_five [] one_task

abbrev one_starting : Manager ℕ ℕ
one_starting = record one_waiting { tasks = (task_five, starting) ∷ [] }

abbrev one_running : Manager ℕ ℕ
one_running = start_task [] task_five [] one_starting

abbrev one_finished : Manager ℕ ℕ
one_finished = finish_task [] task_five 42 [] one_running

abbrev none_left : Manager ℕ ℕ
none_left = post_completed [] task_five 42 [] one_finished

all_steps : History none_left
unfolding register queue_task start_task finish_task post_completed about
all_steps =
    goes_on
      (goes_on
        (goes_on
          (goes_on
            (goes_on (goes_on (created idle refl refl refl refl) (registers idle 5 40 tt) refl)
              (queues one_task [] [] task_five refl) tt)
            (takes one_waiting [] [] task_five refl (omega arith)) tt)
          (starts one_starting [] [] task_five refl) tt)
        (finishes one_running [] [] task_five 42 refl) tt)
      (posts one_finished [] [] task_five 42 refl) tt

signals_example : Reported 5 (stage_of 5 none_left.tasks) (about 5 (all_signals none_left))
unfolding register queue_task start_task finish_task post_completed
signals_example = signals-InOrder none_left 5 all_steps refl
