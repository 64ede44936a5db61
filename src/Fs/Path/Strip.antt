-- ===== src/Fs/Path/Strip.antt =====
-- What strip_path of fs/misc.c accepts and returns.
use dlos.Prelude.{
  ℕ, zero, suc, inl, inr, ◌≡◌, refl, none, some, ◌==◌, if◌then◌else◌, List, [], ◌∷◌, arith, take,
  has, Bool-cases,
}
use dlos.Fs.Path.{max_filename_len, strip_loop, strip_path}

-- The path without a leading slash.
abbrev pub relative : List ℕ → List ℕ
relative [] = []
relative (c ∷ s) = if c == 47 then s else c ∷ s

strip_loop_lem :
    (n : ℕ) (s : List ℕ) → strip_loop n s ≡ (if has 47 (take n s) then none else some (take n s))
unfolding strip_loop
strip_loop_lem zero s = refl
strip_loop_lem (suc n) [] = refl
strip_loop_lem (suc n) (c ∷ s) = ground (arith, strip_loop_lem n s)

-- strip_path takes the first twelve characters of the path, after one slash at its start, as the
-- name, and refuses the path exactly if there is another slash among these.
pub strip_path-take :
    (path : List ℕ)
    → strip_path path ≡ (
        if has 47 (take max_filename_len (relative path))
        then none
        else some (take max_filename_len (relative path)))
unfolding strip_path
strip_path-take [] = strip_loop_lem max_filename_len []
strip_path-take (c ∷ s) = elim (Bool-cases (c == 47)) [
  | inl y ↦ rw y (strip_loop_lem max_filename_len s)
  | inr n ↦ rw n (strip_loop_lem max_filename_len (c ∷ s))
]
