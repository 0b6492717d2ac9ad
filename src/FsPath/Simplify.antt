-- ===== src/FsPath/Simplify.antt =====
-- `simplify_path` renders names that have nothing left to resolve, with no separator behind them,
-- and a path so rendered is not changed by simplifying it again.
use mathlib.Core.List.{reverse, reverse-cons}
use spkdfs.Prelude.{
  Bool, true, false, ◌≡◌, refl, sym, ap, subst, ◌∙◌, ◌⊎◌, inl, inr, List, [], ◌∷◌, ◌++◌, All,
  All-append, Bool-cases, not, arith, ◌==◌, last?, length, pop_back-append, last?-append,
  append-nil, if◌then◌else◌, ◌&&◌, ltb, append_assoc, ℕ,
}
use spkdfs.Exn.{Text}
use spkdfs.Text.{same_text}
use spkdfs.Text.Split.{Lacks, tokens}
use spkdfs.FsPath.{
  simplify_path, drop_slash, dot, dot_dot, slash, is_empty, segments, enter, is_absolute, walk,
  join, root, trailing, names_directory, ends_slash,
}
use spkdfs.FsPath.Normal.{
  IsSegment, IsNormal, walk-IsNormal, walk_stays, segments_slash, segments-join, segments-IsSegment,
}

-- A path from its names, the last one first: `.` stands for no name of a relative path.
unfoldable pub render : Bool → List Text → Text
render true [] = slash
render false [] = dot
render absolute (t ∷ names) = root absolute ++ join (reverse (t ∷ names))

pub reverse-IsSegment :
    (absolute : Bool) (names : List Text) → IsNormal absolute names → All IsSegment (reverse names)
reverse-IsSegment absolute [] h = tt
reverse-IsSegment absolute (t ∷ names) (seg, nd, stays, h) =
    subst (All IsSegment) (sym (reverse-cons t names))
      (All-append IsSegment (reverse names) (t ∷ []) (reverse-IsSegment absolute names h) (seg, tt))

-- The last name ends the joined text.
last?-append_segment : (s t : Text) → IsSegment t → last? (s ++ t) ≡ last? t
last?-append_segment s [] h = cc
last?-append_segment [] (c ∷ t) h = refl
last?-append_segment (a ∷ []) (c ∷ t) h = refl
last?-append_segment (a ∷ b ∷ s) (c ∷ t) h = last?-append_segment (b ∷ s) (c ∷ t) h

last?-Lacks : (t : Text) → Lacks b'/' t → ends_slash (last? t) ≡ false
last?-Lacks [] h = refl
last?-Lacks (c ∷ []) h = h.0
last?-Lacks (c ∷ d ∷ t) h = last?-Lacks (d ∷ t) h.1

join-append :
    (ts : List Text) (t : Text) → IsSegment t → (s : Text) × (join (ts ++ t ∷ []) ≡ s ++ t)
unfolding join
join-append [] t h = ([], refl)
join-append (u ∷ []) t h = (u ++ b'/' ∷ [], sym (append_assoc u (b'/' ∷ []) t))
join-append (u ∷ v ∷ ts) t h =
    let (s, e) = join-append (v ∷ ts) t h in
    (u ++ b'/' ∷ s, ap (λ l. u ++ b'/' ∷ l) e ∙ sym (append_assoc u (b'/' ∷ s) t))

-- Names in front of a last name `t` end in no separator.
pub ends_slash-join :
    (r : Text) (t : Text) (names : List Text)
    → IsSegment t
    → ends_slash (last? (r ++ join (reverse (t ∷ names)))) ≡ false
ends_slash-join r t names h =
    let (s, e) = join-append (reverse names) t h in
    ap (λ l. ends_slash (last? (r ++ join l))) (reverse-cons t names)
    ∙ ap (λ l. ends_slash (last? (r ++ l))) e
    ∙ ap (λ l. ends_slash (last? l)) (sym (append_assoc r s t))
    ∙ ap ends_slash (last?-append_segment (r ++ s) t h)
    ∙ last?-Lacks t h.1

drop_slash_keeps : (s : Text) → ends_slash (last? s) ≡ false → drop_slash s ≡ s
unfolding drop_slash
drop_slash_keeps s h = ground arith

length-append_pos : (s : Text) (c : ℕ) → is_empty s ≡ false → ltb 1 (length (s ++ c ∷ [])) ≡ true
length-append_pos [] c h = cc
length-append_pos (a ∷ []) c h = refl
length-append_pos (a ∷ b ∷ s) c h = ground arith

drop_slash_drops : (s : Text) → is_empty s ≡ false → drop_slash (s ++ slash) ≡ s
unfolding drop_slash
drop_slash_drops s h = rw (length-append_pos s b'/' h, last?-append s b'/') (pop_back-append s b'/')

is_empty-append : (r s : Text) → is_empty s ≡ false → is_empty (r ++ s) ≡ false
is_empty-append [] s h = h
is_empty-append (c ∷ r) s h = refl

is_empty-join : (ts : List Text) (t : Text) → IsSegment t → is_empty (join (ts ++ t ∷ [])) ≡ false
is_empty-join ts t h = let (s, e) = join-append ts t h in rw e (is_empty-append s t h.0)

nonempty_names :
    (absolute : Bool) (t : Text) (names : List Text)
    → IsSegment t
    → is_empty (render absolute (t ∷ names)) ≡ false
unfolding render
nonempty_names absolute t names h =
    is_empty-append (root absolute) (join (reverse (t ∷ names)))
      (rw reverse-cons (is_empty-join (reverse names) t h))

trailing_cases :
    (s : Text) (names : List Text) → (trailing s names ≡ []) ⊎ (trailing s names ≡ slash)
unfolding trailing
trailing_cases s [] = inl refl
trailing_cases s (t ∷ names) = elim (Bool-cases (not (same_text t dot_dot) && names_directory s)) [
  | inl e ↦ inr (rw e)
  | inr e ↦ inl (rw e)
]

abbrev finish : Text → Text
finish res = if is_empty res then dot else res

finish_lem :
    (body end : Text)
    → is_empty body ≡ false
    → ends_slash (last? body) ≡ false
    → (end ≡ []) ⊎ (end ≡ slash)
    → drop_slash (finish (body ++ end)) ≡ body
finish_lem body end full h (inl e) = rw (e, append-nil, full) (drop_slash_keeps body h)
finish_lem body end full h (inr e) =
    rw (e, is_empty-append body slash refl) (drop_slash_drops body full)

-- Whatever the path, the names that are left are rendered without a separator behind them.
render_lem :
    (absolute : Bool) (s : Text) (names : List Text)
    → IsNormal absolute names
    → drop_slash (finish (root absolute ++ (join (reverse names) ++ trailing s names)))
      ≡ render absolute names
render_lem true s [] h = unfold render trailing join drop_slash in refl
render_lem false s [] h = unfold render trailing join drop_slash in refl
render_lem absolute s (t ∷ names) (seg, nd, stays, h) =
    ap (λ l. drop_slash (finish l))
      (sym (append_assoc (root absolute) (join (reverse (t ∷ names))) (trailing s (t ∷ names))))
    ∙ finish_lem (root absolute ++ join (reverse (t ∷ names))) (trailing s (t ∷ names))
        (unfold render in nonempty_names absolute t names seg)
        (ends_slash-join (root absolute) t names seg) (trailing_cases s (t ∷ names))
    ∙ unfold render in refl

-- The names that `simplify_path` keeps, the last one first.
unfoldable pub resolved : Text → List Text
resolved s = walk (is_absolute s) (segments s) []

pub resolved-IsNormal : (s : Text) → IsNormal (is_absolute s) (resolved s)
unfolding resolved
resolved-IsNormal s = walk-IsNormal (is_absolute s) (segments s) [] (segments-IsSegment s) tt

-- A path that is not empty is simplified to its resolved names, rendered.
pub simplify_path-render :
    (s : Text) → is_empty s ≡ false → simplify_path s ≡ render (is_absolute s) (resolved s)
unfolding simplify_path resolved
simplify_path-render [] h = cc
simplify_path-render (c ∷ s) h =
    render_lem (c == b'/') (c ∷ s) (resolved (c ∷ s)) (resolved-IsNormal (c ∷ s))

first_char : (t : Text) (s : Text) → IsSegment t → is_absolute (t ++ s) ≡ false
first_char [] s h = cc
first_char (c ∷ t) s h = h.1.0

is_absolute-join : (ts : List Text) → All IsSegment ts → is_absolute (join ts) ≡ false
unfolding join
is_absolute-join [] h = refl
is_absolute-join (t ∷ []) h = rw (← append-nil t) (first_char t [] h.0)
is_absolute-join (t ∷ u ∷ ts) h = first_char t (b'/' ∷ join (u ∷ ts)) h.0

pub is_absolute-render :
    (absolute : Bool) (names : List Text)
    → IsNormal absolute names
    → is_absolute (render absolute names) ≡ absolute
unfolding render
is_absolute-render true [] h = refl
is_absolute-render false [] h = refl
is_absolute-render true (t ∷ names) h = refl
is_absolute-render false (t ∷ names) h =
    is_absolute-join (reverse (t ∷ names)) (reverse-IsSegment false (t ∷ names) h)

segments-render :
    (absolute : Bool) (t : Text) (names : List Text)
    → IsNormal absolute (t ∷ names)
    → segments (render absolute (t ∷ names)) ≡ reverse (t ∷ names)
unfolding render
segments-render true t names h =
    segments_slash (join (reverse (t ∷ names)))
    ∙ segments-join (reverse (t ∷ names)) (reverse-IsSegment true (t ∷ names) h)
segments-render false t names h =
    segments-join (reverse (t ∷ names)) (reverse-IsSegment false (t ∷ names) h)

pub resolved-render :
    (absolute : Bool) (names : List Text)
    → IsNormal absolute names
    → resolved (render absolute names) ≡ names
unfolding resolved
resolved-render true [] h = unfold render walk segments tokens same_text in refl
resolved-render false [] h = unfold render walk segments enter tokens same_text in refl
resolved-render absolute (t ∷ names) h =
    ap (λ b. walk b (segments (render absolute (t ∷ names))) [])
      (is_absolute-render absolute (t ∷ names) h)
    ∙ ap (λ ts. walk absolute ts []) (segments-render absolute t names h)
    ∙ walk_stays absolute (t ∷ names) h

pub is_empty-render :
    (absolute : Bool) (names : List Text)
    → IsNormal absolute names
    → is_empty (render absolute names) ≡ false
is_empty-render true [] h = unfold render in refl
is_empty-render false [] h = unfold render in refl
is_empty-render absolute (t ∷ names) h = nonempty_names absolute t names h.0

pub render_simple :
    (absolute : Bool) (names : List Text)
    → IsNormal absolute names
    → simplify_path (render absolute names) ≡ render absolute names
render_simple absolute names h =
    simplify_path-render (render absolute names) (is_empty-render absolute names h)
    ∙ ap (λ b. render b (resolved (render absolute names))) (is_absolute-render absolute names h)
    ∙ ap (render absolute) (resolved-render absolute names h)

-- Simplifying a path twice is simplifying it once.
pub simplify_path_idem : (s : Text) → simplify_path (simplify_path s) ≡ simplify_path s
simplify_path_idem [] = unfold simplify_path in refl
simplify_path_idem (c ∷ s) =
    rw (simplify_path-render (c ∷ s) refl)
      (render_simple (c == b'/') (resolved (c ∷ s)) (resolved-IsNormal (c ∷ s)))
