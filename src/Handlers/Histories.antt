-- ===== src/Handlers/Histories.antt =====
-- No history of requests leaves a list of projects in the cache that is not the one in the database.
use temp_task.Prelude.{◌≡◌, List, [], ◌∷◌, arith, Str_eq, find, ok}
use temp_task.Models.{Project}
use temp_task.Handlers.{Services, Request, Readings, World, returned}
use temp_task.Handlers.Projects.{get_projects}
use temp_task.Handlers.Invariants.{Keeps}
use temp_task.Handlers.ProjectCache.{
  register-Coherent, login-Coherent, search_users-Coherent, post_task-Coherent,
}
use temp_task.Handlers.CommentSparing.{
  post_comment-Coherent, get_comments-Coherent, post_reply-Coherent,
}
use temp_task.Handlers.ProjectList.{
  IsCoherent, Coherent, projects_text, get_projects-eq-projects_text, ProjectLaws,
  post_project-Coherent, get_projects-IsCoherent,
}
use temp_task.Handlers.Service.{
  Route, Arrival, handle, serve, registers, logs_in, searches_users, posts_project, lists_projects,
  posts_task, posts_comment, lists_comments, posts_reply,
}

module _ (s : Services) (request : Request) (at : Readings) where
  get_projects-Coherent : Keeps (Coherent s) (get_projects s request at)
  unfolding Keeps
  get_projects-Coherent w h = get_projects-IsCoherent s request at w h

module _ (s : Services) (laws : ProjectLaws s) where
  handle-Coherent :
      (r : Route) (request : Request) (at : Readings) → Keeps (Coherent s) (handle s r request at)
  unfolding handle
  handle-Coherent registers = register-Coherent s laws
  handle-Coherent logs_in = login-Coherent s laws
  handle-Coherent searches_users = search_users-Coherent s laws
  handle-Coherent posts_project = post_project-Coherent s laws
  handle-Coherent lists_projects = get_projects-Coherent s
  handle-Coherent posts_task = post_task-Coherent s laws
  handle-Coherent posts_comment = post_comment-Coherent s
  handle-Coherent lists_comments = get_comments-Coherent s
  handle-Coherent posts_reply = post_reply-Coherent s

  -- No history of requests brings into the cache a list of projects that is not the one in the
  -- database: where the cached list is the one in the database before, it is afterwards.
  serve-Coherent :
      (arrivals : List Arrival) (w : World s) → Coherent s w → Coherent s (serve s arrivals w)
  unfolding serve Keeps
  serve-Coherent [] w h = h
  serve-Coherent (a ∷ later) w h =
      serve-Coherent later _ (handle-Coherent a.route a.request a.readings _ h)

  -- After any history of requests that began with an empty cache, the list of projects that the service
  -- answers is the one in its database, if the query for it works: the cache is never seen. This is
  -- over a storage in which a creation of a project that throws, and a creation of a user or a task,
  -- change no list of projects.
  pub get_projects-serve :
      (arrivals : List Arrival) (w : World s) (request : Request) (at : Readings)
      (projects : List Project)
      → w.cache ≡ []
      → s.storage.get_all_projects (serve s arrivals w).db ≡ ok projects
      → (get_projects s request at (serve s arrivals w)).0 ≡ returned (projects_text s projects)
  unfolding IsCoherent find
  get_projects-serve arrivals w request at projects empty read =
      get_projects-eq-projects_text s request at (serve s arrivals w) projects
        (serve-Coherent arrivals w (λ e found. absurd (ground (arith, found)))) read
