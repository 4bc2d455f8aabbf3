-- ===== src/Worker/Files.antt =====
-- The workspace files of controller/worker.py.
use v91_core_system.Prelude.{
  ℕ, ◌≤◌, ltb, String, ◌≡◌, refl, sym, ap, ◌∙◌, Bool, true, false, not, ◌||◌, Option, none, some,
  List, [], ◌∷◌, ◌++◌, any, arith, eq_iff,
}
use v91_core_system.Prelude.Result.{ok, raise_if, or_raise, ◌>>◌, >>=-eq-ok}
use v91_core_system.Prelude.Text.{one_of}
use v91_core_system.Worker.Task.{
  TaskError, bad_path, symbolic_link, not_there, not_regular, file_too_large, os_error, FileSystem,
  is_relative_to, has_symlink, max_workspace_file_bytes, check_file, locate,
}

-- A regular file of the workspace, reached from its root over no symbolic link, of at most 512 MiB.
pub record IsWorkspaceFile (fs : FileSystem) (relative : String) (file : List String) : Type 0 where
  pub resolved : fs.resolve (fs.workspace_root ++ fs.parts relative) ≡ some file
  pub no_link : has_symlink fs.is_symlink fs.workspace_root (fs.parts relative) ≡ false
  pub rest : List String
  pub inside : fs.workspace_root ++ rest ≡ file
  pub regular : fs.is_file file ≡ true
  pub bytes : ℕ
  pub size : fs.size file ≡ some bytes
  pub bound : bytes ≤ max_workspace_file_bytes

below_root :
    (root path : List String)
    → is_relative_to root path ≡ true
    → (rest : List String) × (root ++ rest ≡ path)
unfolding is_relative_to
below_root [] path h = (path, refl)
below_root (r ∷ root) [] h = cc
below_root (r ∷ root) (p ∷ path) h =
    let (rest, e) = below_root root path (ground arith) in
    let same : r ≡ p = ground (arith, eq_iff r p) in (rest, λ i. same i ∷ e i)

pub or_raise-some :
    {A : Type 0} (o : Option A) (e : TaskError) (a : A) → or_raise o e ≡ ok a → o ≡ some a
or_raise-some none e a h = cc
or_raise-some (some x) e a h = cc

checked : (b : Bool) (e : TaskError) (u : Unit {0}) → raise_if b e ≡ ok u → b ≡ false
checked true e u h = cc
checked false e u h = refl

module _ (fs : FileSystem) where
  -- What the tests of a resolved path show.
  record IsRegular (found file : List String) : Type 0 where
    same : found ≡ file
    rest : List String
    inside : fs.workspace_root ++ rest ≡ file
    regular : fs.is_file file ≡ true
    bytes : ℕ
    size : fs.size file ≡ some bytes
    bound : bytes ≤ max_workspace_file_bytes

  sized :
      (n : ℕ) (found file : List String)
      → (raise_if (ltb max_workspace_file_bytes n) file_too_large >> ok found) ≡ ok file
      → (n ≤ max_workspace_file_bytes) × (found ≡ file)
  sized n found file h = (ground arith, ground arith)

  check_file-IsRegular :
      (found file : List String) → check_file fs found ≡ ok file → IsRegular found file
  check_file-IsRegular found file h =
      let (u, e1, h1) =
        >>=-eq-ok
          (raise_if (not (is_relative_to fs.workspace_root found) || not (fs.is_file found))
            not_regular)
          _ h in
      let (n, e2, h2) = >>=-eq-ok (or_raise (fs.size found) os_error) _ h1 in
      let (bound, same) = sized n found file h2 in
      let fine = checked _ not_regular u e1 in
      let (rest, inside) = below_root fs.workspace_root found (ground arith) in
      record {
        same = same;
        rest = rest;
        inside = inside ∙ same;
        regular = ap fs.is_file (sym same) ∙ ground arith;
        bytes = n;
        size = ap fs.size (sym same) ∙ or_raise-some (fs.size found) os_error n e2;
        bound = bound;
      }

  pub locate-IsWorkspaceFile :
      (raw : String) (file : List String) → locate fs raw ≡ ok file → IsWorkspaceFile fs raw file
  locate-IsWorkspaceFile raw file h =
      let (u, e1, h1) =
        >>=-eq-ok
          (raise_if (fs.is_absolute raw || any (λ p. one_of p (".." ∷ "." ∷ [])) (fs.parts raw))
            bad_path)
          _ h in
      let (v, e2, h2) =
        >>=-eq-ok
          (raise_if (has_symlink fs.is_symlink fs.workspace_root (fs.parts raw)) symbolic_link) _
          h1 in
      let (found, e3, h3) =
        >>=-eq-ok (or_raise (fs.resolve (fs.workspace_root ++ fs.parts raw)) not_there) _ h2 in
      let r = check_file-IsRegular found file h3 in
      record {
        resolved = or_raise-some _ not_there found e3 ∙ ap (λ x. some x) r.same;
        no_link = checked _ symbolic_link v e2;
        rest = r.rest;
        inside = r.inside;
        regular = r.regular;
        bytes = r.bytes;
        size = r.size;
        bound = r.bound;
      }
