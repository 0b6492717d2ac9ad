-- ===== src/FsPath/Normal.antt =====
-- A simplified path is not changed by simplifying it again.
use mathlib.Core.List.{reverse, reverse-cons}
use spkdfs.Prelude.{
  Bool, true, false, ◌≡◌, refl, sym, ap, ◌∙◌, ◌⊎◌, inl, inr, List, [], ◌∷◌, ◌++◌, All, keep_if,
  Bool-cases, not,
}
use spkdfs.Exn.{Text}
use spkdfs.Text.{same_text, eq_of_same_text}
use spkdfs.Text.Split.{tokens, Lacks, tokens-Lacks, tokens-append_delimiter, tokens_single}
use spkdfs.FsPath.{dot, dot_dot, is_empty, segments, enter, up, walk, join}

-- A name between separators.
abbrev pub IsSegment : Text → Type 0
IsSegment t = (is_empty t ≡ false) × Lacks b'/' t

abbrev AreParents : List Text → Type 0
AreParents = All (λ t. same_text t dot_dot ≡ true)

-- A name that `..` takes away, or a `..` in front of a relative path; never `.`.
abbrev Stays : Bool → Text → List Text → Type 0
Stays absolute t names =
    (same_text t dot_dot ≡ false)
    ⊎ ((absolute ≡ false) × (same_text t dot_dot ≡ true) × AreParents names)

-- The names of a path that has nothing left to resolve, the last one first.
abbrev pub IsNormal : Bool → List Text → Type 0
IsNormal absolute [] = Unit
IsNormal absolute (t ∷ names) =
    IsSegment t × (same_text t dot ≡ false) × Stays absolute t names × IsNormal absolute names

keep-IsSegment :
    (ts : List Text) → All (Lacks b'/') ts → All IsSegment (keep_if (λ t. not (is_empty t)) ts)
keep-IsSegment [] h = tt
keep-IsSegment ([] ∷ ts) h = keep-IsSegment ts h.1
keep-IsSegment ((c ∷ t) ∷ ts) h = ((refl, h.0), keep-IsSegment ts h.1)

pub segments-IsSegment : (s : Text) → All IsSegment (segments s)
unfolding segments
segments-IsSegment s = keep-IsSegment (tokens b'/' s) (tokens-Lacks b'/' s)

dot_dot-IsSegment : IsSegment dot_dot
dot_dot-IsSegment = (refl, (refl, (refl, tt)))

up-IsNormal :
    (absolute : Bool) (names : List Text)
    → IsNormal absolute names
    → IsNormal absolute (up absolute names)
unfolding up same_text
up-IsNormal true [] h = tt
up-IsNormal false [] h = (dot_dot-IsSegment, refl, inr (refl, refl, tt), tt)
up-IsNormal absolute (t ∷ names) (seg, nd, stays, rest) = elim (Bool-cases (same_text t dot_dot)) [
  | inl e ↦ rw e (
    dot_dot-IsSegment,
    refl,
    elim stays [ inl n ↦ absurd (cc) | inr (a, b, c) ↦ inr (a, refl, (e, c)) ],
    (seg, nd, stays, rest),
  )
  | inr e ↦ rw e rest
]

enter-IsNormal :
    (absolute : Bool) (t : Text) (names : List Text)
    → IsSegment t
    → IsNormal absolute names
    → IsNormal absolute (enter absolute t names)
unfolding enter
enter-IsNormal absolute t names seg h = elim (Bool-cases (same_text t dot)) [
  | inl e ↦ rw e h
  | inr e ↦ rw e (elim (Bool-cases (same_text t dot_dot)) [
    | inl d ↦ rw d (up-IsNormal absolute names h)
    | inr d ↦ rw d (seg, e, inl d, h)
  ])
]

pub walk-IsNormal :
    (absolute : Bool) (ts names : List Text)
    → All IsSegment ts
    → IsNormal absolute names
    → IsNormal absolute (walk absolute ts names)
unfolding walk
walk-IsNormal absolute [] names hs h = h
walk-IsNormal absolute (t ∷ ts) names hs h =
    walk-IsNormal absolute ts (enter absolute t names) hs.1 (enter-IsNormal absolute t names hs.0 h)

walk-append :
    (absolute : Bool) (ts us names : List Text)
    → walk absolute (ts ++ us) names ≡ walk absolute us (walk absolute ts names)
unfolding walk
walk-append absolute [] us names = refl
walk-append absolute (t ∷ ts) us names = walk-append absolute ts us (enter absolute t names)

up_stays : (names : List Text) → AreParents names → up false names ≡ dot_dot ∷ names
unfolding up
up_stays [] h = refl
up_stays (t ∷ names) h = rw h.0

enter-Stays :
    (absolute : Bool) (t : Text) (names : List Text)
    → same_text t dot ≡ false
    → Stays absolute t names
    → enter absolute t names ≡ t ∷ names
unfolding enter
enter-Stays absolute t names nd (inl n) = rw (nd, n)
enter-Stays absolute t names nd (inr (a, b, c)) =
    rw (nd, b, a)
      (up_stays names c ∙ ap (λ (u : Text). u ∷ names) (sym (eq_of_same_text t dot_dot b)))

-- Names that have nothing to resolve are what the walk over them keeps.
pub walk_stays :
    (absolute : Bool) (names : List Text)
    → IsNormal absolute names
    → walk absolute (reverse names) [] ≡ names
unfolding walk
walk_stays absolute [] h = refl
walk_stays absolute (t ∷ names) (seg, nd, stays, h) =
    ap (λ ts. walk absolute ts []) (reverse-cons t names)
    ∙ walk-append absolute (reverse names) (t ∷ []) []
    ∙ ap (enter absolute t) (walk_stays absolute names h)
    ∙ enter-Stays absolute t names nd stays

pub segments_slash : (s : Text) → segments (b'/' ∷ s) ≡ segments s
unfolding segments tokens
segments_slash s = refl

pub segments-join : (ts : List Text) → All IsSegment ts → segments (join ts) ≡ ts
unfolding segments join
segments-join [] h = unfold tokens in refl
segments-join ([] ∷ ts) h = cc
segments-join ((c ∷ t) ∷ []) h = rw (tokens_single b'/' c t h.0.1)
segments-join ((c ∷ t) ∷ u ∷ ts) h =
    rw (tokens-append_delimiter b'/' (c ∷ t) (join (u ∷ ts)) h.0.1)
      (ap (λ l. (c ∷ t) ∷ l) (segments-join (u ∷ ts) h.1))
