-- ===== src/Fs/Unlink/Refused.antt =====
-- The paths that do_unlink of fs/link.c takes for the root.
use dlos.Prelude.{
  ℕ, ◌≡◌, ◌⊎◌, inl, inr, refl, List, [], ◌∷◌, Option, some, none, true, ◌==◌, ◌∙◌, arith,
}
use dlos.Kernel.Proc.{done, >>=-done}
use dlos.Libc.Strings.{strcmp_is_0}
use dlos.Fs.State.{Fs}
use dlos.Fs.Files.{read_pathname}
use dlos.Fs.Unlink.{minus_one, unlink_path, do_unlink}

-- `head` of a path, if it is not empty.
abbrev pub first_char : List ℕ → Option ℕ
first_char [] = none
first_char (c ∷ s) = some c

ended : (s : List ℕ) → strcmp_is_0 s [] ≡ true
unfolding strcmp_is_0
ended [] = refl
ended (c ∷ s) = refl

root_like :
    (path : List ℕ) → (path ≡ []) ⊎ (first_char path ≡ some 47) → strcmp_is_0 path (47 ∷ []) ≡ true
unfolding strcmp_is_0
root_like [] h = refl
root_like (c ∷ s) (inl e) = absurd cc
root_like (c ∷ s) (inr e) =
    let here : c ≡ 47 = cc in
    let test : (c == 47) ≡ true = ground (arith, here) in rw test (ended s)

-- do_unlink of a path that is empty or begins with `/`, and so of every absolute path: it returns -1
-- and changes nothing, whatever file the path names.
pub do_unlink-absolute :
    (s : Fs) (path : List ℕ)
    → read_pathname 19 s ≡ done path s
    → (path ≡ []) ⊎ (first_char path ≡ some 47)
    → do_unlink s ≡ done minus_one s
unfolding do_unlink unlink_path
do_unlink-absolute s path read h =
    >>=-done (read_pathname 19) unlink_path read ∙ rw (root_like path h) refl
