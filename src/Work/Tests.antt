-- ===== src/Work/Tests.antt =====
-- A queue with a task that submits another, in whole seconds.
use firefly_zephyr.Base.{
  ℕ, ◌+◌, ◌-◌, ◌≡◌, refl, false, [], leb, ◌==◌, if◌then◌else◌, ◌<◌, ◌++◌, arith, sym, ◌⊎◌,
}
use mathlib.Core.Path.{subst}
use firefly_zephyr.Work.Types.{Arithmetic, Task, Work, task_limit, queue_at, put_items}
use firefly_zephyr.Work.Queues.{initialize, submit, submit_with_delay, item_for_task, enqueue}
use firefly_zephyr.Work.Run.{process_loop, impl_process}
use firefly_zephyr.Work.Valid.{IsValid}
use firefly_zephyr.Work.Calls.{IsValid-initialize, IsValid-submit_with_delay}
use firefly_zephyr.Work.Round.{AllLeave, impl_process-round, any_waits, all_after, all_due}
use firefly_zephyr.Work.Lookup.{Queued}
use firefly_zephyr.Work.Submission.{Dropped, submit_with_delay-Queued}
use firefly_zephyr.Work.Runs.{processes_all, perform, perform-IsValid, impl_process_more}

abbrev seconds : Arithmetic ℕ
seconds = record { zero_float = 0; minus = λ x y. x - y; at_most_zero = λ x. leb x 0 }

abbrev first : Task
first = record { function = 100; context = 1 }

abbrev second : Task
second = record { function = 200; context = 2 }

-- Each task submits the second one.
abbrev resubmit : Task → Work ℕ → Work ℕ
resubmit task w = (submit seconds 0 second w).1

resubmit-IsValid : (t : Task) (w : Work ℕ) → IsValid w → IsValid (resubmit t w)
unfolding submit
resubmit-IsValid t w v = IsValid-submit_with_delay seconds 0 second 0 w v

abbrev blank : Work ℕ
blank = record { queues = []; queue_count = 0; ran = []; asserts = 0 }

abbrev waiting : Work ℕ
waiting = (submit seconds 0 first (initialize blank)).1

waiting-IsValid : IsValid waiting
unfolding submit
waiting-IsValid =
    IsValid-submit_with_delay seconds 0 first 0 (initialize blank) (IsValid-initialize blank)

perform-IsValid_example : IsValid (perform seconds resubmit (processes_all 1) waiting)
perform-IsValid_example =
    perform-IsValid seconds resubmit resubmit-IsValid (processes_all 1) waiting waiting-IsValid

impl_process_more_example :
    process_loop seconds resubmit (task_limit + 5) 0 0 1 false waiting
    ≡ impl_process seconds resubmit 0 1 waiting
impl_process_more_example =
    impl_process_more seconds resubmit resubmit-IsValid 5 0 1 waiting waiting-IsValid

-- Only the second task submits, which waits in the queue and is not due.
abbrev second_submits : Task → Work ℕ → Work ℕ
second_submits task w =
    if task.function == second.function then (submit seconds 0 second w).1 else w

abbrev both : Work ℕ
both = (submit_with_delay seconds 0 second 3 waiting).1

both-IsValid : IsValid both
both-IsValid = IsValid-submit_with_delay seconds 0 second 3 waiting waiting-IsValid

due_leave : AllLeave second_submits (all_due seconds 1 (queue_at 0 both).items)
unfolding submit submit_with_delay item_for_task enqueue initialize
due_leave = ((λ w. refl), tt)

impl_process-round_example : impl_process seconds second_submits 0 1 both ≡ (
  any_waits seconds 1 (queue_at 0 both).items,
  record (put_items 0 (all_after seconds 1 (queue_at 0 both).items) both) {
    ran = both.ran ++ all_due seconds 1 (queue_at 0 both).items;
  },
)
impl_process-round_example =
    impl_process-round seconds second_submits 0 1 both
      (subst (λ n. 0 < n) (sym both-IsValid.four) (omega arith)) (both-IsValid.each 0).fits
      due_leave

submit_with_delay-Queued_example :
    Queued second (queue_at 0 (submit_with_delay seconds 0 second 3 waiting).1).items
    ⊎ Dropped seconds 0 second 3 waiting (submit_with_delay seconds 0 second 3 waiting).1
submit_with_delay-Queued_example =
    submit_with_delay-Queued seconds 0 second 3 waiting (omega arith) waiting-IsValid.four
