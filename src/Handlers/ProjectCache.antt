-- ===== src/Handlers/ProjectCache.antt =====
-- The handlers of users and tasks keep the cached list of projects the one in the database.
use temp_task.Prelude.{Option, none, some, ℤ, Str, Str_eq}
use temp_task.Models.{User, Project, Task}
use temp_task.Handlers.{Services, Request, Readings, storing}
use temp_task.Handlers.Users.{
  register, register_new_login, register_user, publish_registered, login, acquire, limit_info,
  refuse_login, log_in, check_password, check_credentials, read_login, search_users,
}
use temp_task.Handlers.Projects.{publish_task, create_titled_task, create_task_in, post_task}
use temp_task.Handlers.Invariants.{Keeps, steps}
use temp_task.Handlers.Sparing.{set_status-Coherent, set_header-Coherent, publishing-Coherent}
use temp_task.Handlers.ProjectList.{Coherent, ProjectLaws, moved-IsCoherent}

module _ (s : Services) (laws : ProjectLaws s) (request : Request) (at : Readings) where
  create_user-Coherent : (u : User) → Keeps (Coherent s) (storing (s.storage.create_user u))
  unfolding Keeps
  create_user-Coherent u w h = moved-IsCoherent s w.db _ w.cache (laws.create_user u w.db) h

  create_task-Coherent : (t : Task) → Keeps (Coherent s) (storing (s.storage.create_task t))
  unfolding Keeps
  create_task-Coherent t w h = moved-IsCoherent s w.db _ w.cache (laws.create_task t w.db) h

  publish_registered-Coherent :
      (o : Option User) → Keeps (Coherent s) (publish_registered s request at o)
  unfolding Keeps publish_registered
  publish_registered-Coherent none w h = h
  publish_registered-Coherent (some u) w h = h

  register_user-Coherent :
      (name : Str) (body : s.json.Value) → Keeps (Coherent s) (register_user s request at name body)
  unfolding register_user
  register_user-Coherent name body =
      search (steps, create_user-Coherent, publish_registered-Coherent, set_status-Coherent) depth
        20

  register_new_login-Coherent :
      (body : s.json.Value) → Keeps (Coherent s) (register_new_login s request at body)
  unfolding register_new_login
  register_new_login-Coherent body =
      search (steps, register_user-Coherent, set_status-Coherent) depth 20

  pub register-Coherent : Keeps (Coherent s) (register s request at)
  unfolding register
  register-Coherent = search (steps, register_new_login-Coherent, set_status-Coherent) depth 20

  acquire-Coherent : Keeps (Coherent s) (acquire s request at)
  unfolding Keeps acquire
  acquire-Coherent w h = h

  limit_info-Coherent : Keeps (Coherent s) (limit_info s request at)
  unfolding Keeps limit_info
  limit_info-Coherent w h = h

  refuse_login-Coherent : Keeps (Coherent s) (refuse_login s request at)
  unfolding refuse_login
  refuse_login-Coherent =
      search (steps, limit_info-Coherent, set_status-Coherent, set_header-Coherent) depth 20

  log_in-Coherent : (u : User) → Keeps (Coherent s) (log_in s request at u)
  unfolding log_in
  log_in-Coherent u =
      search (steps, limit_info-Coherent, publishing-Coherent, set_header-Coherent) depth 20

  check_password-Coherent :
      (p : Str) (o : Option User) → Keeps (Coherent s) (check_password s request at p o)
  unfolding check_password
  check_password-Coherent p none = search (steps, set_status-Coherent)
  check_password-Coherent p (some u) = search (steps, set_status-Coherent, log_in-Coherent)

  check_credentials-Coherent :
      (body : s.json.Value) → Keeps (Coherent s) (check_credentials s request at body)
  unfolding check_credentials
  check_credentials-Coherent body = search (steps, check_password-Coherent) depth 20

  read_login-Coherent : Keeps (Coherent s) (read_login s request at)
  unfolding read_login
  read_login-Coherent = search (steps, check_credentials-Coherent, set_status-Coherent) depth 20

  pub login-Coherent : Keeps (Coherent s) (login s request at)
  unfolding login
  login-Coherent =
      search (steps, acquire-Coherent, read_login-Coherent, refuse_login-Coherent) depth 20

  pub search_users-Coherent : Keeps (Coherent s) (search_users s request at)
  unfolding search_users
  search_users-Coherent = search (steps, set_status-Coherent) depth 20

  publish_task-Coherent : (o : Option Task) → Keeps (Coherent s) (publish_task s request at o)
  unfolding Keeps publish_task
  publish_task-Coherent none w h = h
  publish_task-Coherent (some t) w h = h

  create_titled_task-Coherent :
      (user_id project_id : ℤ) (body : s.json.Value)
      → Keeps (Coherent s) (create_titled_task s request at user_id project_id body)
  unfolding create_titled_task
  create_titled_task-Coherent user_id project_id body =
      search (steps, create_task-Coherent, publish_task-Coherent, set_status-Coherent) depth 24

  create_task_in-Coherent :
      (user_id project_id : ℤ) (o : Option Project)
      → Keeps (Coherent s) (create_task_in s request at user_id project_id o)
  unfolding create_task_in
  create_task_in-Coherent user_id project_id none = search (steps, set_status-Coherent)
  create_task_in-Coherent user_id project_id (some p) =
      search (steps, create_titled_task-Coherent, set_status-Coherent) depth 20

  pub post_task-Coherent : Keeps (Coherent s) (post_task s request at)
  unfolding post_task
  post_task-Coherent = search (steps, create_task_in-Coherent) depth 20
