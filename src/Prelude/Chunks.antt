-- ===== src/Prelude/Chunks.antt =====
-- Texts behind their lengths: the encoding that the sample libraries use.
use Prim.Native.Nat.{ℕ, zero, suc}
use mathlib.Core.Path.{◌≡◌, refl}
use mathlib.Core.List.{[], ◌∷◌, ◌++◌}
use temp_task.Prelude.Lists.{length, take, drop, take-append, drop-append}
use temp_task.Prelude.Text.{Str}
use temp_task.Prelude.Maps.{Dict}

unfoldable pub chunk : Str → Str × Str
chunk [] = ([], [])
chunk (n ∷ s) = (take n s, drop n s)

unfoldable pub body : Dict Str Str → Str
body [] = []
body ((k, v) ∷ p) = length k ∷ (k ++ (length v ∷ (v ++ body p)))

unfoldable pub read_body : ℕ → Str → Dict Str Str
unfolding chunk
read_body zero s = []
read_body (suc n) s =
    let rest = (chunk s).1 in ((chunk s).0, (chunk rest).0) ∷ read_body n (chunk rest).1

pub read_body-body : (p : Dict Str Str) → read_body (length p) (body p) ≡ p
unfolding read_body body
read_body-body [] = refl
read_body-body ((k, v) ∷ p) = rw (
  take-append k (length v ∷ (v ++ body p)),
  drop-append k (length v ∷ (v ++ body p)),
  take-append v (body p),
  drop-append v (body p),
  read_body-body p,
)
