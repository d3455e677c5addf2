-- ===== src/Actions/Submit/Invalid.antt =====
-- A submission that does not validate (`submit_task` of task_actions.py): the retry accounting
-- outlives the error response.
use agenticqueue.Base.{◌≡◌}
use agenticqueue.Task.{Task}
use agenticqueue.Transition.{TransitionPolicy}
use agenticqueue.Store.{Session, ◌>>◌}
use agenticqueue.Actions.Common.{Actor, Env, Validation, TaskView}
use agenticqueue.Actions.Failure.{Failed}
use agenticqueue.Actions.Submission.{SubmitEnv}
use agenticqueue.Actions.Submit.{failure_of}

-- The failed attempt that an invalid submission leaves when its request is over: the tables as they
-- stand are the committed ones.
pub record Recorded (env : Env) (senv : SubmitEnv) (actor : Actor) (t : Task) (p : TransitionPolicy)
    (v : Validation) (s after : Session) : Type 0 where
  pub shown : TaskView
  pub failed : Failed p p.max_retries (failure_of env senv actor t v) t s after shown
  pub durable : after.committed ≡ after.working
