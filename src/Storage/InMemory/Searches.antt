-- ===== src/Storage/InMemory/Searches.antt =====
-- What the loops over the maps give back.
use mathlib.Core.Bool.{and-eq-true_iff}
use mathlib.Core.List.{Memᴰ}
use mathlib.Core.Path.{subst}
use temp_task.Prelude.{
  ◌≡◌, refl, ap, sym, ◌∙◌, ◌↔◌, inl, inr, Bool, true, false, List, [], ◌∷◌, map, Bool-cases, ℤ, Str,
  Dict,
}
use temp_task.Models.{User, Project}
use temp_task.Storage.InMemory.{
  InMemoryStorage, collect, search_users_by_login, search_users_by_first_name_last_name,
  get_all_projects,
}
use temp_task.Storage.InMemory.Masks.{Holds, matches_mask_iff}

abbrev pub values : {V : Type 0} → Dict ℤ V → List V
values = map (λ e. e.1)

module _ {V : Type 0} (test : V → Bool) where
  collect_hit :
      (k : ℤ) (w : V) (m : Dict ℤ V)
      → test w ≡ true
      → collect test ((k, w) ∷ m) ≡ w ∷ collect test m
  unfolding collect
  collect_hit k w m h = rw h

  collect_miss :
      (k : ℤ) (w : V) (m : Dict ℤ V) → test w ≡ false → collect test ((k, w) ∷ m) ≡ collect test m
  unfolding collect
  collect_miss k w m h = rw h

  cons_sound :
      {v w : V} {found stored : List V}
      → test w ≡ true
      → (Memᴰ v found → Memᴰ v stored × (test v ≡ true))
      → Memᴰ v (w ∷ found)
      → Memᴰ v (w ∷ stored) × (test v ≡ true)
  cons_sound t rest (Memᴰ.head e) = (Memᴰ.head e, ap test e ∙ t)
  cons_sound t rest (Memᴰ.tail h) = (Memᴰ.tail (rest h).0, (rest h).1)

  collect_sound :
      (v : V) (m : Dict ℤ V) → Memᴰ v (collect test m) → Memᴰ v (values m) × (test v ≡ true)
  unfolding collect
  collect_sound v [] h = (h, elim h [ ])
  collect_sound v ((k, w) ∷ m) h = elim (Bool-cases (test w)) [
    | inl t ↦ cons_sound t (collect_sound v m) (subst (Memᴰ v) (collect_hit k w m t) h)
    | inr f ↦
        let (stored, t) = collect_sound v m (subst (Memᴰ v) (collect_miss k w m f) h) in
        (Memᴰ.tail stored, t)
  ]

  collect_complete :
      (v : V) (m : Dict ℤ V) → test v ≡ true → Memᴰ v (values m) → Memᴰ v (collect test m)
  collect_complete v [] t h = elim h [ ]
  collect_complete v ((k, w) ∷ m) t (Memᴰ.head e) =
      subst (Memᴰ v) (sym (collect_hit k w m (ap test (sym e) ∙ t))) (Memᴰ.head e)
  collect_complete v ((k, w) ∷ m) t (Memᴰ.tail h) = elim (Bool-cases (test w)) [
    | inl hit ↦ subst (Memᴰ v) (sym (collect_hit k w m hit)) (Memᴰ.tail (collect_complete v m t h))
    | inr miss ↦ subst (Memᴰ v) (sym (collect_miss k w m miss)) (collect_complete v m t h)
  ]

-- A search by login gives back exactly the stored users whose login holds the mask.
pub search_users_by_login_iff :
    (mask : Str) (u : User) (s : InMemoryStorage)
    → Memᴰ u (search_users_by_login mask s) ↔ (Memᴰ u (values s.users) × Holds u.login mask)
unfolding search_users_by_login
search_users_by_login_iff mask u s = (
  λ h.
      let (stored, t) = collect_sound _ u s.users h in
      (stored, (matches_mask_iff u.login mask).0 t),
  λ (stored, holds). collect_complete _ u s.users ((matches_mask_iff u.login mask).1 holds) stored,
)

-- A search by names gives back exactly the stored users both of whose names hold their masks.
pub search_users_by_first_name_last_name_iff :
    (first_mask last_mask : Str) (u : User) (s : InMemoryStorage)
    → Memᴰ u (search_users_by_first_name_last_name first_mask last_mask s)
      ↔ (Memᴰ u (values s.users) × Holds u.first_name first_mask × Holds u.last_name last_mask)
unfolding search_users_by_first_name_last_name
search_users_by_first_name_last_name_iff first_mask last_mask u s = (
  λ h.
      let (stored, t) = collect_sound _ u s.users h in
      let (first, last) = (and-eq-true_iff _ _).0 t in
      (
        stored,
        (matches_mask_iff u.first_name first_mask).0 first,
        (matches_mask_iff u.last_name last_mask).0 last,
      ),
  λ (stored, first, last).
      collect_complete _ u s.users
        ((and-eq-true_iff _ _).1 (
          (matches_mask_iff u.first_name first_mask).1 first,
          (matches_mask_iff u.last_name last_mask).1 last,
        ))
        stored,
)

-- Every stored project is listed, and in the order of the map.
get_all_projects-eq-values : (s : InMemoryStorage) → get_all_projects s ≡ values s.projects
unfolding get_all_projects
get_all_projects-eq-values s = go s.projects
  where
    go : (m : Dict ℤ Project) → collect (λ project. true) m ≡ values m
    go [] = unfold collect in refl
    go ((k, p) ∷ m) = collect_hit (λ project. true) k p m refl ∙ ap (◌∷◌ p) (go m)
