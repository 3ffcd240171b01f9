-- ===== src/Handlers/Races/Alone.antt =====
-- The handlers of projects, run with no other between their calls, take the steps.
use temp_task.Prelude.{
  refl, [], Option, none, some, ℤ, ◌+ℤ◌, ◌≤ℤ◌, Str, Result-cases, Option-cases, inl, inr,
}
use temp_task.Models.{Project}
use temp_task.Cache.{get, invalidate}
use temp_task.Handlers.{
  Services, Request, Readings, World, Handler, HttpStatus, respond, storing, caching, ◌>>=◌, ◌>>◌,
}
use temp_task.Handlers.Projects.{
  projects_key, publish_project, create_named_project, post_project, answer_projects, get_projects,
}
use temp_task.Handlers.ProjectList.{projects_text}
use temp_task.Handlers.Invariants.{Keeps, steps}
use temp_task.Handlers.Races.{Shared, Run, begins, goes_on, IsByLister, IsByCreator}
use temp_task.Handlers.Races.Step.{by_lister, by_creator, waits}
use temp_task.Handlers.Races.ListStep.{looks_up, reads_list, caches_list}
use temp_task.Handlers.Races.CreateStep.{creates, fails, outdates}

-- What a world shares where no handler of projects is under way.
abbrev pub shared_of : (s : Services) → World s → ℤ → Shared s
shared_of s w now = record { db = w.db; cache = w.cache; now = now; reads = []; writes = 0 }

module _ (s : Services) (delay : ℤ) (request : Request) (at : Readings) where
  -- GetProjectsHandler, run alone, takes its steps, from its first reading of the clock to
  -- that or to the one for its Set. The second reading is not before the first, nor later by more than the delay.
  get_projects-Run :
      (w : World s)
      → at.read_at ≤ℤ at.cached_at
      → at.cached_at ≤ℤ at.read_at +ℤ delay
      → (now : ℤ) × (run : Run s delay
          (shared_of s w at.read_at)
          (shared_of s (get_projects s request at w).1 now))
        × IsByLister s delay run
  unfolding get_projects answer_projects
  get_projects-Run w in_order soon = elim (Option-cases (get projects_key at.read_at w.cache).1) [
    | inl missing ↦ elim (Result-cases (s.storage.get_all_projects w.db)) [
      | inl (projects, read) ↦
          rw (missing, read)
            (
              at.cached_at,
              goes_on
                  (goes_on
                    (goes_on (goes_on begins (by_lister looks_up))
                      (by_lister (reads_list projects read)))
                    (waits at.cached_at in_order))
                  (by_lister (caches_list [] at.read_at (projects_text s projects) [] refl soon)),
              tt,
            )
      | inr (x, failed) ↦ rw (missing, failed) (at.read_at, goes_on begins (by_lister looks_up), tt)
    ]
    | inr (t, found) ↦ rw found (at.read_at, goes_on begins (by_lister looks_up), tt)
  ]

module _ (s : Services) (delay now : ℤ) (request : Request) (at : Readings) (first : World s) where
  -- A run of steps of CreateProjectHandler from the first world to another, with no handler under way at its ends.
  abbrev Reached : World s → Type 0
  Reached w =
      (run : Run s delay (shared_of s first now) (shared_of s w now)) × IsByCreator s delay run

  create-Reached :
      {B : Type 0} (p : Project) (next : Option Project → Handler s B)
      → ((o : Option Project) → Keeps Reached (next o))
      → Keeps Reached (
          storing (s.storage.create_project p) >>= λ o. caching (invalidate projects_key) >> next o)
  unfolding Keeps
  create-Reached p next h w (run, own) = elim (Result-cases (s.storage.create_project p w.db).0) [
    | inl (o, made) ↦ rw made (
        h o _ (
          goes_on (goes_on run (by_creator (creates p o made))) (by_creator (outdates 0 refl)),
          own,
        ))
    | inr (e, failed) ↦ rw failed (goes_on run (by_creator (fails p e failed)), own)
  ]

  respond-Reached : (status : HttpStatus) (body : Str) → Keeps Reached (respond status body)
  unfolding Keeps
  respond-Reached status body w run = run

  publish_project-Reached : (o : Option Project) → Keeps Reached (publish_project s request at o)
  unfolding Keeps publish_project
  publish_project-Reached none w run = run
  publish_project-Reached (some p) w run = run

  create_named_project-Reached :
      (user_id : ℤ) (body : s.json.Value)
      → Keeps Reached (create_named_project s request at user_id body)
  unfolding create_named_project
  create_named_project-Reached user_id body =
      search (steps, create-Reached, publish_project-Reached, respond-Reached) depth 20

  post_project-Reached : Keeps Reached (post_project s request at)
  unfolding post_project
  post_project-Reached = search (steps, create_named_project-Reached, respond-Reached) depth 20

-- CreateProjectHandler, run alone at one time, takes its steps, whether it returns or throws.
post_project-Run :
    (s : Services) (delay now : ℤ) (request : Request) (at : Readings) (w : World s)
    → (run : Run s delay (shared_of s w now) (shared_of s (post_project s request at w).1 now))
      × IsByCreator s delay run
unfolding Keeps
post_project-Run s delay now request at w =
    post_project-Reached s delay now request at w w (begins, tt)

-- GetProjectsHandler and CreateProjectHandler, each run with no other handler between its calls, take the steps that
-- are theirs, and no others: the first from its first reading of the clock to that or to the one for its Set, which
-- must not be before the first nor later by more than the delay, the second at one time, whether it returns or throws,
-- and after a creation that returned it has outdated the list when it is over.
pub project_handlers-Run :
    (s : Services) (delay : ℤ) (request : Request) (at : Readings) (w : World s)
    → at.read_at ≤ℤ at.cached_at
    → at.cached_at ≤ℤ at.read_at +ℤ delay
    → ((now : ℤ) × (run : Run s delay
          (shared_of s w at.read_at)
          (shared_of s (get_projects s request at w).1 now))
        × IsByLister s delay run)
      × ((run : Run s delay
            (shared_of s w at.read_at)
            (shared_of s (post_project s request at w).1 at.read_at))
          × IsByCreator s delay run)
project_handlers-Run s delay request at w in_order soon = (
  get_projects-Run s delay request at w in_order soon,
  post_project-Run s delay at.read_at request at w,
)
