-- ===== src/Models.antt =====
-- src/models/user.hpp, project.hpp, task.hpp and comment.hpp. A time point is its ticks since the epoch.
pub mod Laws
mod Tests
use temp_task.Prelude.{Bool, List, Option, ℤ, Str, str, Str_eq, ◌==◌, if◌then◌else◌}

abbrev pub TimePoint : Type 0
TimePoint = ℤ

pub record User : Type 0 where
  pub id : ℤ
  pub login : Str
  pub password_hash : Str
  pub first_name : Str
  pub last_name : Str
  pub email : Str
  pub created_at : TimePoint
  pub is_deleted : Bool

pub record Project : Type 0 where
  pub id : ℤ
  pub name : Str
  pub description : Str
  pub key : Str
  pub owner_id : ℤ
  pub created_at : TimePoint

pub data TaskStatus : Type 0 where
  to_do in_progress review done : TaskStatus

-- The `default` of the source's switch is for values that the enumeration does not have.
unfoldable pub task_status_to_string : TaskStatus → Str
task_status_to_string to_do = str "TODO"
task_status_to_string in_progress = str "IN_PROGRESS"
task_status_to_string review = str "REVIEW"
task_status_to_string done = str "DONE"

unfoldable pub task_status_from_string : Str → TaskStatus
task_status_from_string s =
    if s == str "TODO"
    then to_do
    else if s == str "IN_PROGRESS"
    then in_progress
    else if s == str "REVIEW"
    then review
    else if s == str "DONE"
    then done
    else to_do

pub record Task : Type 0 where
  pub id : ℤ
  pub title : Str
  pub description : Str
  pub status : TaskStatus
  pub project_id : ℤ
  pub assignee_id : Option ℤ
  pub creator_id : ℤ
  pub priority : ℤ
  pub created_at : TimePoint
  pub updated_at : Option TimePoint

pub record Reply : Type 0 where
  pub author : Str
  pub text : Str
  pub created_at : TimePoint

pub record Comment : Type 0 where
  pub id : Str
  pub task_id : ℤ
  pub author : Str
  pub author_id : ℤ
  pub text : Str
  pub created_at : TimePoint
  pub updated_at : Option TimePoint
  pub replies : List Reply
