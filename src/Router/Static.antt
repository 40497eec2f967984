-- ===== src/Router/Static.antt =====
-- Which files a mount gives out.
use high_performance_http_se.Base.{
  ℕ, ◌≡◌, ◌≢◌, inl, inr, refl, ap, true, false, none, some, List, [], ◌∷◌, ◌++◌, Bytes, codes,
  equal_iff, equal_refl, starts_with, find, find_byte, take, drop, length, drop-length, take-length,
  All, arith, Bool-cases, Option-cases, if◌then◌else◌, ◌==◌,
}
use high_performance_http_se.Status.{StatusCode}
use high_performance_http_se.Response.{
  Response, make_ok, make_error, method_not_allowed, set_header,
}
use high_performance_http_se.Response
use high_performance_http_se.Router.Files.{
  FileSystem, join_path, is_path_safe, with_slash, dots, first_is_slash,
}
use high_performance_http_se.Router.{StaticMount, send_file, check_root, resolve, serve_static_file}

-- The parts of a path between its slashes.
abbrev onto_first : ℕ → List Bytes → List Bytes
onto_first c [] = (c ∷ []) ∷ []
onto_first c (p ∷ ps) = (c ∷ p) ∷ ps

unfoldable pub components : Bytes → List Bytes
components [] = [] ∷ []
components (c ∷ s) = let rest = components s in if c == b'/' then [] ∷ rest else onto_first c rest

components-head :
    (s : Bytes)
    → (p : Bytes) × (ps : List Bytes) × (components s ≡ p ∷ ps) × (starts_with s p ≡ true)
unfolding components starts_with
components-head [] = ([], [], refl, refl)
components-head (c ∷ s) =
    let (p, ps, e, h) = components-head s in
    elim (Bool-cases (c == b'/')) [
      | inl slash ↦ ([], components s, rw slash, refl)
      | inr other ↦ (c ∷ p, ps, rw (other, e), ground arith)
    ]

starts_with-cons :
    (c : ℕ) (s p : Bytes) → starts_with s p ≡ true → starts_with (c ∷ s) (c ∷ p) ≡ true
unfolding starts_with
starts_with-cons c s p h = ground arith

make_error-status : (c : StatusCode) (m : Bytes) → (make_error c m).status ≡ c
unfolding make_error
make_error-status c m = ground arith

find-dots_tail : (c : ℕ) (s : Bytes) → find dots (c ∷ s) ≡ none → find dots s ≡ none
unfolding find
find-dots_tail c s h = ground arith

find-dots_head :
    (c : ℕ) (s p : Bytes) → find dots (c ∷ s) ≡ none → starts_with s p ≡ true → c ∷ p ≢ dots
unfolding find
find-dots_head c s p h t e = ground (arith, starts_with-cons c s p t, ap (starts_with (c ∷ s)) e)

components-no_dots : (s : Bytes) → find dots s ≡ none → All (λ c. c ≢ dots) (components s)
unfolding components
components-no_dots [] h = ((λ e. cc), tt)
components-no_dots (c ∷ s) h =
    let (p, ps, e, t) = components-head s in
    let ih = components-no_dots s (find-dots_tail c s h) in
    elim (Bool-cases (c == b'/')) [
      | inl slash ↦ rw slash ((λ e'. cc), ih)
      | inr other ↦ rw (other, e) (find-dots_head c s p h t, (rw e at ih).1)
    ]

is_path_safe_cases :
    (path : Bytes)
    → is_path_safe path ≡ true
    → (find dots path ≡ none) × (find_byte 0 path ≡ none) × (first_is_slash path ≡ true)
unfolding is_path_safe
is_path_safe_cases path h = ground arith

-- A path that the test lets through has no component `..`, holds no zero byte, and begins with a
-- slash.
pub is_path_safe-components :
    (path : Bytes)
    → is_path_safe path ≡ true
    → All (λ c. c ≢ dots) (components path)
      × (find_byte 0 path ≡ none)
      × (first_is_slash path ≡ true)
is_path_safe-components path h =
    let (dotless, whole, rooted) = is_path_safe_cases path h in
    (components-no_dots path dotless, whole, rooted)

is_path_safe-dots : (path : Bytes) → find dots path ≢ none → is_path_safe path ≡ false
unfolding is_path_safe
is_path_safe-dots path h = ground arith

find-dots : (a b : Bytes) → find dots (a ++ (dots ++ b)) ≢ none
unfolding find starts_with
find-dots [] b e = cc
find-dots (c ∷ a) b e = ground (arith, find-dots a b)

with_slash-dots : (a b : Bytes) → find dots (with_slash (a ++ (dots ++ b))) ≢ none
unfolding with_slash
with_slash-dots a b e = ground (arith, find-dots a b, find-dots (b'/' ∷ a) b)

with_slash-no_slash :
    (rest : Bytes) → first_is_slash rest ≡ false → with_slash rest ≡ with_slash (b'/' ∷ rest)
unfolding with_slash
with_slash-no_slash rest h = ground arith

module _ (fs : FileSystem) where
  open fs use {canonical, is_regular_file, read}

  -- What is known of a file that was sent.
  pub record IsServed (mount : StaticMount) (path : Bytes) (res : Response) : Type 0 where
    pub file : Bytes
    pub root : Bytes
    pub safe : is_path_safe (with_slash (drop (length mount.prefix) path)) ≡ true
    pub file_is :
        canonical (join_path mount.directory (with_slash (drop (length mount.prefix) path)))
        ≡ some file
    pub root_is : canonical mount.directory ≡ some root
    pub inside : take (length root) file ≡ root
    pub regular : is_regular_file file ≡ true
    pub content : read file ≡ some res.body

  send_file-ok :
      (file : Bytes)
      → (send_file fs file).status ≡ StatusCode.ok
      → (is_regular_file file ≡ true) × (read file ≡ some (send_file fs file).body)
  unfolding send_file make_ok make_error set_header Response.not_found
  send_file-ok file h = ground arith

  check_root-ok :
      (file root : Bytes)
      → (check_root fs file root).status ≡ StatusCode.ok
      → (take (length root) file ≡ root) × (check_root fs file root ≡ send_file fs file)
  unfolding check_root make_error
  check_root-ok file root h = ground (arith, equal_iff (take (length root) file) root)

  resolve-ok :
      (mount : StaticMount) (rel_path : Bytes)
      → (resolve fs mount rel_path).status ≡ StatusCode.ok
      → (file : Bytes) × (root : Bytes) × (canonical (join_path mount.directory rel_path)
          ≡ some file)
        × (canonical mount.directory ≡ some root)
        × (resolve fs mount rel_path ≡ check_root fs file root)
  unfolding resolve make_error Response.not_found
  resolve-ok mount rel_path h =
      elim (Option-cases (canonical (join_path mount.directory rel_path))) [
        | inl e ↦ absurd (ground arith)
        | inr (file, e) ↦ elim (Option-cases (canonical mount.directory)) [
          | inl e' ↦ absurd (ground arith)
          | inr (root, e') ↦ (file, root, e, e', rw (e, resolve, e'))
        ]
      ]

  serve_static_file-ok :
      (mount : StaticMount) (path : Bytes)
      → let rel_path = with_slash (drop (length mount.prefix) path) in
        (serve_static_file fs mount path).status ≡ StatusCode.ok
        → (is_path_safe rel_path ≡ true)
          × (serve_static_file fs mount path ≡ resolve fs mount rel_path)
  unfolding serve_static_file make_error
  serve_static_file-ok mount path h = ground arith

  -- A file is sent only from a place whose canonical path begins with that of the mount's
  -- directory, after the test on the request's path, and it is sent whole.
  pub serve_static_file-IsServed :
      (mount : StaticMount) (path : Bytes)
      → (serve_static_file fs mount path).status ≡ StatusCode.ok
      → IsServed mount path (serve_static_file fs mount path)
  serve_static_file-IsServed mount path h =
      let rel_path = with_slash (drop (length mount.prefix) path) in
      let (safe, r) = serve_static_file-ok mount path h in
      let (file, root, file_is, root_is, c) = resolve-ok mount rel_path (rw r at h) in
      let h' = rw c at (rw r at h) in
      let (inside, sent) = check_root-ok file root h' in
      let (regular, content) = send_file-ok file (rw sent at h') in
      rw (r, c, sent)
        (record {
          file = file;
          root = root;
          safe = safe;
          file_is = file_is;
          root_is = root_is;
          inside = inside;
          regular = regular;
          content = content;
        })

  -- A request path with two dots anywhere behind the mount's prefix is answered 403, whatever is on
  -- the disk.
  pub serve_static_file-dots :
      (mount : StaticMount) (a b : Bytes)
      → (serve_static_file fs mount (mount.prefix ++ (a ++ (dots ++ b)))).status
        ≡ StatusCode.forbidden
  unfolding serve_static_file
  serve_static_file-dots mount a b =
      rw
        (
          drop-length mount.prefix (a ++ (dots ++ b)),
          is_path_safe-dots (with_slash (a ++ (dots ++ b))) (with_slash-dots a b),
        )
        (make_error-status StatusCode.forbidden (codes "Forbidden"))

  -- The containment test compares text, not path components: where the request's path passes its test, a
  -- regular file whose canonical path is the root's followed by any bytes at all is sent, also where no
  -- slash stands between.
  pub serve_static_file-any_suffix :
      (mount : StaticMount) (path root suffix content : Bytes)
      → let rel_path = with_slash (drop (length mount.prefix) path) in
        is_path_safe rel_path ≡ true
        → canonical (join_path mount.directory rel_path) ≡ some (root ++ suffix)
        → canonical mount.directory ≡ some root
        → is_regular_file (root ++ suffix) ≡ true
        → read (root ++ suffix) ≡ some content
        → ((serve_static_file fs mount path).status ≡ StatusCode.ok)
          × ((serve_static_file fs mount path).body ≡ content)
  unfolding serve_static_file resolve check_root send_file make_ok set_header
  serve_static_file-any_suffix mount path root suffix content safe file_is root_is regular
        content_is =
      rw
        (
          safe,
          file_is,
          resolve,
          root_is,
          take-length root suffix,
          equal_refl root,
          regular,
          content_is,
          send_file,
        )
        (refl, refl)

  -- A target that goes on behind the prefix without a slash names the same file as one with it.
  pub serve_static_file-no_slash :
      (mount : StaticMount) (rest : Bytes)
      → first_is_slash rest ≡ false
      → serve_static_file fs mount (mount.prefix ++ rest)
        ≡ serve_static_file fs mount (mount.prefix ++ (b'/' ∷ rest))
  unfolding serve_static_file
  serve_static_file-no_slash mount rest h = rw (
    drop-length mount.prefix rest,
    drop-length mount.prefix (b'/' ∷ rest),
    with_slash-no_slash rest h,
  )
