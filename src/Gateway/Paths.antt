-- ===== src/Gateway/Paths.antt =====
-- The paths of the endpoints: no request belongs to two of them.
use temp_task.Prelude.{
  ◌≡◌, refl, sym, ap, ◌∙◌, if◌then◌else◌, Bool, true, false, ◌&&◌, ◌||◌, not, List, [], ◌∷◌, arith,
  ℕ, ◌==◌, ==_iff, Str, Str_eq, nat_eq,
}
use temp_task.Handlers.Service.{
  Route, registers, logs_in, searches_users, posts_project, lists_projects, posts_task,
  posts_comment, lists_comments, posts_reply,
}
use temp_task.Gateway.{Method, get, post, Segment, word, argument, endpoint}

-- Whether a path is one of a template's: an argument stands for any part.
unfoldable pub matches : List Segment → List Str → Bool
matches [] [] = true
matches [] (x ∷ xs) = false
matches (p ∷ ps) [] = false
matches (word w ∷ ps) (x ∷ xs) = (w == x) && matches ps xs
matches (argument a ∷ ps) (x ∷ xs) = matches ps xs

-- Whether two templates can have a path in common.
unfoldable overlap : List Segment → List Segment → Bool
overlap [] [] = true
overlap [] (q ∷ qs) = false
overlap (p ∷ ps) [] = false
overlap (word w ∷ ps) (word v ∷ qs) = (w == v) && overlap ps qs
overlap (word w ∷ ps) (argument b ∷ qs) = overlap ps qs
overlap (argument a ∷ ps) (word v ∷ qs) = overlap ps qs
overlap (argument a ∷ ps) (argument b ∷ qs) = overlap ps qs

matches-overlap :
    (ps qs : List Segment) (path : List Str)
    → matches ps path ≡ true
    → matches qs path ≡ true
    → overlap ps qs ≡ true
unfolding matches overlap
matches-overlap [] [] path h k = refl
matches-overlap [] (q ∷ qs) [] h k = cc
matches-overlap [] (q ∷ qs) (x ∷ xs) h k = cc
matches-overlap (p ∷ ps) [] [] h k = cc
matches-overlap (p ∷ ps) [] (x ∷ xs) h k = cc
matches-overlap (p ∷ ps) (q ∷ qs) [] h k = cc
matches-overlap (word w ∷ ps) (word v ∷ qs) (x ∷ xs) h k =
    ground (arith, ==_iff w x, ==_iff v x, ==_iff w v, matches-overlap ps qs xs)
matches-overlap (word w ∷ ps) (argument b ∷ qs) (x ∷ xs) h k =
    ground (arith, matches-overlap ps qs xs)
matches-overlap (argument a ∷ ps) (word v ∷ qs) (x ∷ xs) h k =
    ground (arith, matches-overlap ps qs xs)
matches-overlap (argument a ∷ ps) (argument b ∷ qs) (x ∷ xs) h k = matches-overlap ps qs xs h k

abbrev index : Route → ℕ
index registers = 0
index logs_in = 1
index searches_users = 2
index posts_project = 3
index lists_projects = 4
index posts_task = 5
index posts_comment = 6
index lists_comments = 7
index posts_reply = 8

abbrev route_at : ℕ → Route
route_at n =
    if nat_eq n 0
    then registers
    else if nat_eq n 1
    then logs_in
    else if nat_eq n 2
    then searches_users
    else if nat_eq n 3
    then posts_project
    else if nat_eq n 4
    then lists_projects
    else if nat_eq n 5
    then posts_task
    else if nat_eq n 6
    then posts_comment
    else if nat_eq n 7
    then lists_comments
    else posts_reply

route_at-index : (r : Route) → route_at (index r) ≡ r
route_at-index registers = refl
route_at-index logs_in = refl
route_at-index searches_users = refl
route_at-index posts_project = refl
route_at-index lists_projects = refl
route_at-index posts_task = refl
route_at-index posts_comment = refl
route_at-index lists_comments = refl
route_at-index posts_reply = refl

-- A test of every route.
abbrev every : (Route → Bool) → Bool
every f =
    f registers
    && (f logs_in
        && (f searches_users
            && (f posts_project
                && (f lists_projects
                    && (f posts_task
                        && (f posts_comment && (f lists_comments && f posts_reply)))))))

every-true : (f : Route → Bool) → every f ≡ true → (r : Route) → f r ≡ true
every-true f h registers = ground arith
every-true f h logs_in = ground arith
every-true f h searches_users = ground arith
every-true f h posts_project = ground arith
every-true f h lists_projects = ground arith
every-true f h posts_task = ground arith
every-true f h posts_comment = ground arith
every-true f h lists_comments = ground arith
every-true f h posts_reply = ground arith

unfoldable same_method : Method → Method → Bool
same_method get get = true
same_method get post = false
same_method post get = false
same_method post post = true

same_method_refl : (m : Method) → same_method m m ≡ true
unfolding same_method
same_method_refl get = refl
same_method_refl post = refl

-- Two routes share no method and path unless they are one.
unfoldable apart : Route → Route → Bool
apart a b =
    not (
      same_method (endpoint a).method (endpoint b).method
      && overlap (endpoint a).path (endpoint b).path)
    || nat_eq (index a) (index b)

apart-index :
    (a b : Route)
    → apart a b ≡ true
    → same_method (endpoint a).method (endpoint b).method ≡ true
    → overlap (endpoint a).path (endpoint b).path ≡ true
    → index a ≡ index b
unfolding apart
apart-index a b h k l = ground (arith, h, k, l)

all_apart : every (λ a. every (λ b. apart a b)) ≡ true
unfolding apart same_method overlap
all_apart = refl

-- No request has two handlers: two endpoints of the same method whose templates both match a path, an argument
-- standing for any part of it, are one.
pub endpoint_unique :
    (a b : Route) (path : List Str)
    → (endpoint a).method ≡ (endpoint b).method
    → matches (endpoint a).path path ≡ true
    → matches (endpoint b).path path ≡ true
    → a ≡ b
endpoint_unique a b path e h k =
    let tested =
      every-true (λ c. apart a c) (every-true (λ c. every (λ d. apart c d)) all_apart a) b in
    let same : same_method (endpoint a).method (endpoint b).method ≡ true =
      rw e (same_method_refl (endpoint b).method) in
    let overlapping = matches-overlap (endpoint a).path (endpoint b).path path h k in
    sym (route_at-index a)
    ∙ ap route_at (apart-index a b tested same overlapping)
    ∙ route_at-index b
