-- ===== src/Storage/Sql/Sample/ReadingLaws.antt =====
-- The readings of the sample cluster meet their laws.
use temp_task.Prelude.{
  ◌≡◌, refl, ap, ◌∙◌, Bool, List, [], ◌∷◌, Option, none, some, arith, ℤ, IsInt32, Str, take, Result,
  ok, ◌>>=◌, bind-ok, ok_injective,
}
use temp_task.Models.{TimePoint, User, Project}
use temp_task.Storage.Sql.{Cell, Row, text, int, boolean, time, null}
use temp_task.Storage.Sql.Semantics.{cells, user_cells, project_cells}
use temp_task.Storage.Sql.Laws.{ReadingLaws}
use temp_task.Storage.Sql.Sample.{sample_cluster}
use temp_task.Storage.Sql.Sample.Reading.{
  no_result, one_row, int_of, text_of, time_of, boolean_of, next, read_user, read_project, user_of,
  project_of, all_users, all_projects,
}

int_of-ok : (c : Cell) (z : ℤ) → int_of c ≡ ok z → c ≡ int z
int_of-ok (int y) z h = ground arith
int_of-ok (text s) z h = absurd (cc)
int_of-ok (boolean b) z h = absurd (cc)
int_of-ok (time t) z h = absurd (cc)
int_of-ok null z h = absurd (cc)

text_of-ok : (c : Cell) (s : Str) → text_of c ≡ ok s → c ≡ text s
text_of-ok (text t) s h = cc
text_of-ok (int z) s h = absurd (cc)
text_of-ok (boolean b) s h = absurd (cc)
text_of-ok (time t) s h = absurd (cc)
text_of-ok null s h = absurd (cc)

time_of-ok : (c : Cell) (t : TimePoint) → time_of c ≡ ok t → c ≡ time t
time_of-ok (time s) t h = cc
time_of-ok (int z) t h = absurd (cc)
time_of-ok (boolean b) t h = absurd (cc)
time_of-ok (text s) t h = absurd (cc)
time_of-ok null t h = absurd (cc)

boolean_of-ok : (c : Cell) (b : Bool) → boolean_of c ≡ ok b → c ≡ boolean b
boolean_of-ok (boolean d) b h = cc
boolean_of-ok (int z) b h = absurd (cc)
boolean_of-ok (time t) b h = absurd (cc)
boolean_of-ok (text s) b h = absurd (cc)
boolean_of-ok null b h = absurd (cc)

-- A reading of the next cell that succeeds, and what is read after it.
step {ℓ} :
    {A B : Type ℓ} (read : Cell → Result A) (cell : A → Cell)
    (read-ok : (c : Cell) (a : A) → read c ≡ ok a → c ≡ cell a) (cs : List Cell)
    (rest : A × List Cell → Result B) (b : B)
    → (next read cs >>= rest) ≡ ok b
    → (a : A) × (left : List Cell) × (cs ≡ cell a ∷ left) × (rest (a, left) ≡ ok b)
step read cell read-ok [] rest b h = absurd (cc)
step read cell read-ok (c ∷ cs) rest b h =
    let (p, first, then_b) = bind-ok (read c >>= λ a. ok (a, cs)) rest b h in
    let (a, is_a, pair) = bind-ok (read c) (λ a. ok (a, cs)) p first in
    (a, cs, ap (λ x. x ∷ cs) (read-ok c a is_a), ap rest (cc pair) ∙ then_b)

user_of_cells : (cs : List Cell) (u : User) → read_user cs ≡ ok u → take 8 cs ≡ user_cells u
user_of_cells cs u h =
    let (id, r1, e1, h1) = step int_of int int_of-ok cs _ u h in
    let (login, r2, e2, h2) = step text_of text text_of-ok r1 _ u h1 in
    let (password_hash, r3, e3, h3) = step text_of text text_of-ok r2 _ u h2 in
    let (first_name, r4, e4, h4) = step text_of text text_of-ok r3 _ u h3 in
    let (last_name, r5, e5, h5) = step text_of text text_of-ok r4 _ u h4 in
    let (email, r6, e6, h6) = step text_of text text_of-ok r5 _ u h5 in
    let (created_at, r7, e7, h7) = step time_of time time_of-ok r6 _ u h6 in
    let (is_deleted, r8, e8, h8) = step boolean_of boolean boolean_of-ok r7 _ u h7 in
    rw (e1, e2, e3, e4, e5, e6, e7, e8) (ap user_cells (ok_injective h8))

project_of_cells :
    (cs : List Cell) (p : Project) → read_project cs ≡ ok p → take 6 cs ≡ project_cells p
project_of_cells cs p h =
    let (id, r1, e1, h1) = step int_of int int_of-ok cs _ p h in
    let (name, r2, e2, h2) = step text_of text text_of-ok r1 _ p h1 in
    let (description, r3, e3, h3) = step text_of text text_of-ok r2 _ p h2 in
    let (key, r4, e4, h4) = step text_of text text_of-ok r3 _ p h3 in
    let (owner_id, r5, e5, h5) = step int_of int int_of-ok r4 _ p h4 in
    let (created_at, r6, e6, h6) = step time_of time time_of-ok r5 _ p h5 in
    rw (e1, e2, e3, e4, e5, e6) (ap project_cells (ok_injective h6))

pub user_of-cells : (r : Row) (u : User) → user_of r ≡ ok u → take 8 (cells r) ≡ user_cells u
unfolding user_of
user_of-cells r u h = user_of_cells (cells r) u h

pub project_of-cells :
    (r : Row) (p : Project) → project_of r ≡ ok p → take 6 (cells r) ≡ project_cells p
unfolding project_of
project_of-cells r p h = project_of_cells (cells r) p h

pub int_of-IsInt32 : (z : ℤ) → IsInt32 z → int_of (int z) ≡ ok z
int_of-IsInt32 z h = ground arith

pub project_of-row :
    (r : Row) (p : Project)
    → IsInt32 p.id
    → IsInt32 p.owner_id
    → cells r ≡ project_cells p
    → project_of r ≡ ok p
unfolding project_of
project_of-row r p id owner e = rw (e, int_of-IsInt32 p.id id, int_of-IsInt32 p.owner_id owner)

pub single_sound : (rows : List Row) (r : Row) → one_row rows ≡ ok r → rows ≡ r ∷ []
single_sound [] r h = absurd (cc)
single_sound (x ∷ []) r h = cc
single_sound (x ∷ y ∷ rows) r h = absurd (cc)

unfoldable pub sample_reading_laws : ReadingLaws sample_cluster
unfolding all_users all_projects
sample_reading_laws = record {
  single-row = λ r. refl;
  single-sound = single_sound;
  user_of-cells = user_of-cells;
  project_of-row = project_of-row;
  project_of-cells = project_of-cells;
  users_of-rows = λ rows. refl;
  projects_of-rows = λ rows. refl;
  field-find = λ r k v found.
      ap (λ (o : Option Cell). elim o as (λ _. Result Cell) [ none ↦ no_result | some c ↦ ok c ])
        found;
  as_int-int = int_of-IsInt32;
  as_string-text = λ s. refl;
  as_time-time = λ t. refl;
  as_optional_int-int = λ z h. ap (λ r. r >>= λ z. ok (some z)) (int_of-IsInt32 z h);
  as_optional_int-null = refl;
  as_optional_time-time = λ t. refl;
}
