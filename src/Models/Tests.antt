-- ===== src/Models/Tests.antt =====
-- Task statuses at concrete texts.
use temp_task.Prelude.{◌≡◌, refl, str}
use temp_task.Models.{to_do, review, task_status_from_string}

status_tests :
    (task_status_from_string (str "REVIEW") ≡ review)
    × (task_status_from_string (str "done") ≡ to_do)
unfolding task_status_from_string
status_tests = (refl, refl)
