-- ===== src/Storage/Postgres/Masks.antt =====
-- The pattern of the searches by mask of PostgresStorage.
use temp_task.Prelude.{
  ℕ, suc, ◌≡◌, ◌↔◌, refl, sym, ap, ◌∙◌, true, [], ◌∷◌, ◌++◌, arith, Str, str, starts_with,
  find_from, find_str, str_eq, str_eq_iff,
}
use temp_task.Storage.Sql.Patterns.{IsPlain, like, fits, tokens, any_end, like-part}
use temp_task.Storage.Sql.{Cluster}
use temp_task.Storage.Sql.Semantics.{HasPart}
use temp_task.Storage.Sql.Laws.{ClusterLaws}
use temp_task.Storage.InMemory.{matches_mask}
use temp_task.Storage.InMemory.Masks.{found, matches_mask_iff}
use temp_task.Storage.Postgres.{make_like_pattern}

any_end-find_from : (i : ℕ) (s p : Str) → any_end (λ t. starts_with t p) s ≡ found (find_from i s p)
unfolding find_from
any_end-find_from i [] p = ground arith
any_end-find_from i (c ∷ s) p = ground (arith, any_end-find_from (suc i) s p)

matches_mask-found :
    (s : Str) (c : ℕ) (mask : Str) → matches_mask s (c ∷ mask) ≡ found (find_from 0 s (c ∷ mask))
unfolding matches_mask find_str
matches_mask-found s c mask = ground arith

any_end-nil : (s : Str) → any_end (λ t. starts_with t []) s ≡ true
any_end-nil [] = refl
any_end-nil (c ∷ s) = refl

pub like-all : (s : Str) → like s (b'%' ∷ []) ≡ true
unfolding like tokens fits
like-all [] = refl
like-all (c ∷ s) = ground (arith, like-all s)

like-between :
    (s mask : Str) → IsPlain mask → like s (b'%' ∷ (mask ++ b'%' ∷ [])) ≡ matches_mask s mask
like-between s [] h = like-part s [] h ∙ any_end-nil s ∙ unfold matches_mask in refl
like-between s (c ∷ mask) h =
    like-part s (c ∷ mask) h
    ∙ (any_end-find_from 0 s (c ∷ mask) ∙ sym (matches_mask-found s c mask))

-- On LIKE itself, a plain mask between two `%`.
pub like_iff :
    (s mask : Str)
    → IsPlain mask
    → (like s (str "%" ++ mask ++ str "%") ≡ true) ↔ HasPart str_eq s mask
like_iff s mask h = (
  λ fits.
      let (a, b, e) = (matches_mask_iff s mask).0 (sym (like-between s mask h) ∙ fits) in
      (a, mask, b, e, (str_eq_iff mask mask).1 refl),
  λ (a, m, b, e, same).
      like-between s mask h
      ∙ (matches_mask_iff s mask).1
          (a, b, e ∙ ap (λ t. a ++ (t ++ b)) ((str_eq_iff m mask).0 same)),
)

-- The pattern that is made of a mask without special characters is like exactly the texts that have the mask
-- in them but for case.
pub make_like_pattern_iff :
    (c : Cluster) (sql : ClusterLaws c) (s mask : Str)
    → IsPlain mask
    → (sql.ilike_test s (make_like_pattern mask) ≡ true) ↔ HasPart sql.same_but_case s mask
unfolding make_like_pattern
make_like_pattern_iff c sql s [] h =
    (λ fits. ([], [], s, refl, sql.same_but_case-refl []), λ part. sql.ilike_test-percent s)
make_like_pattern_iff c sql s (b ∷ mask) h = sql.ilike_test-part s (b ∷ mask) h
