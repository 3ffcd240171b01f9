-- ===== src/Models/Laws.antt =====
-- The texts of a task's status.
use temp_task.Prelude.{◌≡◌, refl, ◌≢◌, ◌↔◌, arith, Str, str, str_eq_iff}
use temp_task.Models.{
  TaskStatus, to_do, in_progress, review, done, task_status_to_string, task_status_from_string,
}

pub from_string-to_string : (s : TaskStatus) → task_status_from_string (task_status_to_string s) ≡ s
unfolding task_status_from_string task_status_to_string
from_string-to_string to_do = refl
from_string-to_string in_progress = refl
from_string-to_string review = refl
from_string-to_string done = refl

-- A text is read as a status other than ToDo exactly when it is that status's own text; every other
-- text, misspelt ones and the empty one too, is read as ToDo.
pub task_status_from_string_iff :
    (t : Str) (s : TaskStatus)
    → s ≢ to_do
    → (task_status_from_string t ≡ s) ↔ (t ≡ task_status_to_string s)
unfolding task_status_from_string task_status_to_string
task_status_from_string_iff t to_do h = absurd (h refl)
task_status_from_string_iff t s h = ground (
  arith,
  str_eq_iff t (str "TODO"),
  str_eq_iff t (str "IN_PROGRESS"),
  str_eq_iff t (str "REVIEW"),
  str_eq_iff t (str "DONE"),
)
