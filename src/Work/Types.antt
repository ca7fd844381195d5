-- ===== src/Work/Types.antt =====
-- The structures of fd_work.h and fd_work.c.
use firefly_zephyr.Base.{ℕ, ◌+◌, ◌%◌, ◌^◌, Bool, ◌&&◌, List, [], get_or, set, ◌==◌, if◌then◌else◌}

-- `0.0f`, `x - y`, and `x <= 0.0f`.
pub record Arithmetic (Float : Type 0) : Type 0 where
  pub zero_float : Float
  pub minus : Float → Float → Float
  pub at_most_zero : Float → Bool

abbrev pub queue_limit : ℕ
queue_limit = 4

abbrev pub task_limit : ℕ
task_limit = 8

-- `fd_work_task_t`: the addresses of a function and of its context.
pub record Task : Type 0 where
  pub function : ℕ
  pub context : ℕ

-- `fd_work_queue_submit_result_t`
pub data SubmitResult : Type 0 where
  not_queued queued_already queued queued_while_running : SubmitResult

-- `fd_work_queue_wait_result_t`
pub data WaitResult : Type 0 where
  waited no_wait : WaitResult

-- `fd_work_item_t`
pub record Item (Float : Type 0) : Type 0 where
  pub task : Task
  pub is_queued : Bool
  pub delay : Float

-- `fd_work_queue_impl_t`, with the first `item_count` of its items; those behind are zero. Of the
-- configuration only `task_limit` is looked at.
pub record Queue (Float : Type 0) : Type 0 where
  pub configured_limit : ℕ
  pub items : List (Item Float)

-- `fd_work_t`, with the tasks that were run, latest last, and the count of failed assertions.
pub record Work (Float : Type 0) : Type 0 where
  pub queues : List (Queue Float)
  pub queue_count : ℕ
  pub ran : List Task
  pub asserts : ℕ

abbrev pub same_task : Task → Task → Bool
same_task t u = (t.function == u.function) && (t.context == u.context)

module _ {Float : Type 0} where
  abbrev pub empty_queue : Queue Float
  empty_queue = record { configured_limit = 0; items = [] }

  abbrev pub fd_assert : Bool → Work Float → Work Float
  fd_assert condition w = if condition then w else record w { asserts = (w.asserts + 1) % 2 ^ 32 }

  abbrev pub queue_at : ℕ → Work Float → Queue Float
  queue_at i w = get_or w.queues i empty_queue

  abbrev pub put_items : ℕ → List (Item Float) → Work Float → Work Float
  put_items i items w = record w {
    queues = set w.queues i (record (queue_at i w) { items = items });
  }
