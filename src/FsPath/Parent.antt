-- ===== src/FsPath/Parent.antt =====
-- `filename` and `parent_path` of a simplified absolute path: its last name, and the path of the
-- other names.
use mathlib.Core.List.{reverse, reverse-cons}
use spkdfs.Prelude.{
  true, false, ◌≡◌, ◌≢◌, refl, sym, ap, subst, ◌∙◌, ◌⊎◌, inl, inr, List, [], ◌∷◌, ◌++◌, Bool-cases,
  arith, last?, if◌then◌else◌, append_assoc, length,
}
use spkdfs.Exn.{Text}
use spkdfs.Text.{same_text, eq_of_same_text}
use spkdfs.Text.Split.{Lacks}
use spkdfs.FsPath.{
  slash, is_empty, join, root, ends_slash, has_slash, filename, directory_part, strip_slashes,
  parent_path, is_absolute, simplify_path,
}
use spkdfs.FsPath.Normal.{IsSegment, IsNormal}
use spkdfs.FsPath.Simplify.{
  render, ends_slash-join, is_absolute-render, resolved, resolved-render, resolved-IsNormal,
  render_simple, simplify_path-render,
}

has_slash-append : (s t : Text) → has_slash (s ++ b'/' ∷ t) ≡ true
has_slash-append [] t = refl
has_slash-append (c ∷ s) t = ground (arith, has_slash-append s t)

has_slash-Lacks : (t : Text) → Lacks b'/' t → has_slash t ≡ false
has_slash-Lacks [] h = refl
has_slash-Lacks (c ∷ t) h = ground (arith, has_slash-Lacks t h.1)

pub filename-Lacks : (t : Text) → Lacks b'/' t → filename t ≡ t
unfolding filename
filename-Lacks [] h = refl
filename-Lacks (c ∷ t) h = rw (has_slash-Lacks t h.1, h.0)

pub filename-append : (s t : Text) → Lacks b'/' t → filename (s ++ b'/' ∷ t) ≡ t
unfolding filename
filename-append [] t h = rw (has_slash-Lacks t h)
filename-append (c ∷ s) t h = rw (has_slash-append s t) (filename-append s t h)

directory_part-Lacks : (t : Text) → Lacks b'/' t → directory_part t ≡ []
unfolding directory_part
directory_part-Lacks [] h = refl
directory_part-Lacks (c ∷ t) h = rw (has_slash-Lacks (c ∷ t) h)

directory_part-append : (s t : Text) → Lacks b'/' t → directory_part (s ++ b'/' ∷ t) ≡ s ++ slash
unfolding directory_part
directory_part-append [] t h = rw (directory_part-Lacks t h)
directory_part-append (c ∷ s) t h =
    rw (has_slash-append (c ∷ s) t) (ap (λ l. c ∷ l) (directory_part-append s t h))

directory_part_first : (t : Text) → Lacks b'/' t → directory_part (b'/' ∷ t) ≡ slash
directory_part_first t h = directory_part-append [] t h

strip_slashes-append : (s : Text) → strip_slashes (s ++ slash) ≡ strip_slashes s
unfolding strip_slashes
strip_slashes-append [] = refl
strip_slashes-append (c ∷ s) = rw (strip_slashes-append s)

strip_slashes_keeps : (s : Text) → ends_slash (last? s) ≡ false → strip_slashes s ≡ s
unfolding strip_slashes
strip_slashes_keeps [] h = refl
strip_slashes_keeps (c ∷ []) h = ground arith
strip_slashes_keeps (c ∷ d ∷ s) h = rw (strip_slashes_keeps (d ∷ s) h) (ground arith)

join_last :
    (u : Text) (ts : List Text) (t : Text) → join ((u ∷ ts) ++ t ∷ []) ≡ join (u ∷ ts) ++ b'/' ∷ t
unfolding join
join_last u [] t = refl
join_last u (v ∷ ts) t =
    ap (λ l. u ++ b'/' ∷ l) (join_last v ts t)
    ∙ sym (append_assoc u (b'/' ∷ join (v ∷ ts)) (b'/' ∷ t))

join_last_of : (ts : List Text) (t : Text) → ts ≢ [] → join (ts ++ t ∷ []) ≡ join ts ++ b'/' ∷ t
join_last_of [] t h = absurd (h refl)
join_last_of (u ∷ ts) t h = join_last u ts t

reverse_ne_nil : (t : Text) (names : List Text) → reverse (t ∷ names) ≢ []
reverse_ne_nil t names e = go (reverse names) (sym (reverse-cons t names) ∙ e)
  where
    go : (l : List Text) → (l ++ t ∷ []) ≢ []
    go [] e = cc
    go (x ∷ l) e = cc

-- One more name is one more separator and the name.
pub render_cons :
    (t u : Text) (names : List Text)
    → render true (t ∷ u ∷ names) ≡ render true (u ∷ names) ++ b'/' ∷ t
unfolding render
render_cons t u names =
    ap (λ l. b'/' ∷ l)
      (ap join (reverse-cons t (u ∷ names))
        ∙ join_last_of (reverse (u ∷ names)) t (reverse_ne_nil u names))

pub render_one : (t : Text) → render true (t ∷ []) ≡ b'/' ∷ t
unfolding render join
render_one t = refl

-- The last name of an absolute path.
pub filename-render :
    (t : Text) (names : List Text) → IsSegment t → filename (render true (t ∷ names)) ≡ t
filename-render t [] h = ap filename (render_one t) ∙ filename-append [] t h.1
filename-render t (u ∷ names) h = ap filename (render_cons t u names) ∙ filename-append _ t h.1

strip_render :
    (u : Text) (names : List Text)
    → IsSegment u
    → strip_slashes (render true (u ∷ names)) ≡ render true (u ∷ names)
strip_render u names h = unfold render in strip_slashes_keeps _ (ends_slash-join slash u names h)

is_empty_append_slash : (s t : Text) → is_empty (s ++ b'/' ∷ t) ≡ false
is_empty_append_slash [] t = refl
is_empty_append_slash (c ∷ s) t = refl

is_empty-render : (u : Text) (names : List Text) → is_empty (render true (u ∷ names)) ≡ false
is_empty-render u names = unfold render in refl

parent_path_by :
    (path directory parent : Text)
    → is_empty (strip_slashes path) ≡ false
    → directory_part path ≡ directory
    → strip_slashes directory ≡ parent
    → parent_path path ≡ (if is_empty parent then root (is_absolute path) else parent)
unfolding parent_path
parent_path_by path directory parent full d p = rw (full, d, p)

-- The parent of an absolute path has all its names but the last.
pub parent_path-render :
    (t : Text) (names : List Text)
    → IsNormal true (t ∷ names)
    → parent_path (render true (t ∷ names)) ≡ render true names
parent_path-render t [] h =
    parent_path_by _ slash [] (rw (strip_render t [] h.0) (is_empty-render t []))
      (ap directory_part (render_one t) ∙ directory_part_first t h.0.1)
      (unfold strip_slashes in refl)
    ∙ unfold render in refl
parent_path-render t (u ∷ names) h =
    parent_path_by _ (render true (u ∷ names) ++ slash) (render true (u ∷ names))
      (rw (strip_render t (u ∷ names) h.0) (is_empty-render t (u ∷ names)))
      (ap directory_part (render_cons t u names)
        ∙ directory_part-append (render true (u ∷ names)) t h.0.1)
      (strip_slashes-append (render true (u ∷ names)) ∙ strip_render u names h.3.0)
    ∙ rw (is_empty-render u names)

-- The separator that joins a name to a directory.
abbrev pub below : Text → Text → Text
below directory name = if same_text directory slash then slash ++ name else directory ++ b'/' ∷ name

same_slash-render :
    (u : Text) (names : List Text)
    → IsNormal true (u ∷ names)
    → same_text (render true (u ∷ names)) slash ≡ false
same_slash-render u names h = elim (Bool-cases (same_text (render true (u ∷ names)) slash)) [
  | inl e ↦ absurd (
      cc (
        sym (resolved-render true (u ∷ names) h),
        ap resolved (eq_of_same_text (render true (u ∷ names)) slash e),
        resolved-render true [] tt,
        root_render,
      ))
  | inr e ↦ e
]
  where
    root_render : render true [] ≡ slash
    root_render = unfold render in refl

render-below :
    (t : Text) (names : List Text)
    → IsNormal true (t ∷ names)
    → render true (t ∷ names) ≡ below (render true names) t
render-below t [] h = render_one t ∙ unfold render same_text in refl
render-below t (u ∷ names) h =
    render_cons t u names ∙ unfold same_text in rw (same_slash-render u names h.3)

-- What an absolute simplified path, other than the root, says of its parent.
pub record IsChild (path : Text) : Type 0 where
  pub parent_simple : simplify_path (parent_path path) ≡ parent_path path
  pub parent_absolute : is_absolute (parent_path path) ≡ true
  pub parent_ne : parent_path path ≢ path
  pub name_IsSegment : IsSegment (filename path)
  pub joined : path ≡ below (parent_path path) (filename path)

render-ne-cons :
    (t : Text) (names : List Text)
    → IsNormal true (t ∷ names)
    → render true names ≢ render true (t ∷ names)
render-ne-cons t names h e =
    cons_ne t names
      (sym (resolved-render true names h.3) ∙ ap resolved e ∙ resolved-render true (t ∷ names) h)
  where
    cons_ne : (t : Text) (names : List Text) → names ≢ t ∷ names
    cons_ne t names e = omega (arith, ap length e)

IsChild-render :
    (t : Text) (names : List Text) → IsNormal true (t ∷ names) → IsChild (render true (t ∷ names))
IsChild-render t names h =
    let p = parent_path-render t names h in
    let f = filename-render t names h.0 in
    record {
      parent_simple = rw p (render_simple true names h.3);
      parent_absolute = rw p (is_absolute-render true names h.3);
      parent_ne = rw p (render-ne-cons t names h);
      name_IsSegment = rw f h.0;
      joined = rw (p, f) (render-below t names h);
    }

-- An absolute path is simplified to the root, or to a path that its parent, itself simplified and
-- absolute and another path, and its file name make up.
pub simplify_path_parent :
    (path : Text)
    → is_absolute path ≡ true
    → (simplify_path path ≡ slash) ⊎ IsChild (simplify_path path)
simplify_path_parent [] h = cc
simplify_path_parent (c ∷ s) h =
    elim_names (resolved (c ∷ s))
      (subst (λ b. IsNormal b (resolved (c ∷ s))) h (resolved-IsNormal (c ∷ s)))
      (simplify_path-render (c ∷ s) refl ∙ ap (λ b. render b (resolved (c ∷ s))) h)
  where
    elim_names :
        (names : List Text)
        → IsNormal true names
        → simplify_path (c ∷ s) ≡ render true names
        → (simplify_path (c ∷ s) ≡ slash) ⊎ IsChild (simplify_path (c ∷ s))
    elim_names [] n e = inl (e ∙ unfold render in refl)
    elim_names (t ∷ names) n e = inr (subst IsChild (sym e) (IsChild-render t names n))
