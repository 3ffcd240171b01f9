-- ===== src/Handlers/Service.antt =====
-- The service: its handlers behind their routes (src/main.cpp appends them), and a history of requests.
-- A request is handled on one coroutine from beginning to end before the next here.
use temp_task.Prelude.{List, [], ◌∷◌, Str}
use temp_task.Handlers.{Services, Request, Readings, Response, World, Handler, http_ok}
use temp_task.Handlers.Users.{register, login, search_users}
use temp_task.Handlers.Projects.{post_project, get_projects, post_task}
use temp_task.Handlers.Comments.{post_comment, get_comments, post_reply}

pub data Route : Type 0 where
  registers logs_in searches_users posts_project lists_projects posts_task : Route
  posts_comment lists_comments posts_reply : Route

unfoldable pub handle : (s : Services) → Route → Request → Readings → Handler s Str
handle s registers = register s
handle s logs_in = login s
handle s searches_users = search_users s
handle s posts_project = post_project s
handle s lists_projects = get_projects s
handle s posts_task = post_task s
handle s posts_comment = post_comment s
handle s lists_comments = get_comments s
handle s posts_reply = post_reply s

-- A request with what its handler reads.
pub record Arrival : Type 0 where
  pub route : Route
  pub request : Request
  pub readings : Readings

abbrev pub fresh_response : Response
fresh_response = record { status = http_ok; headers = [] }

-- Each request starts with a response of its own.
unfoldable pub serve : (s : Services) → List Arrival → World s → World s
unfolding handle
serve s [] w = w
serve s (a ∷ later) w =
    serve s later (handle s a.route a.request a.readings (record w { response = fresh_response })).1
