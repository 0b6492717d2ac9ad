-- ===== src/Text/Split.antt =====
-- `std::getline` with a delimiter: the tokens of a whole stream, and the first field of one.
use spkdfs.Prelude.{
  ◌≡◌, refl, false, ℕ, List, [], ◌∷◌, ◌++◌, ap, arith, Bool-cases, inl, inr, ◌==◌, All,
  if◌then◌else◌,
}
use spkdfs.Exn.{Text}

-- The text holds no `d`.
abbrev pub Lacks : ℕ → Text → Type 0
Lacks d = All (λ c. (c == d) ≡ false)

onto_first : ℕ → List Text → List Text
onto_first c [] = (c ∷ []) ∷ []
onto_first c (t ∷ ts) = (c ∷ t) ∷ ts

-- What `while (getline(stream, token, d))` reads, in order. A delimiter at the end opens no token.
unfoldable pub tokens : ℕ → Text → List Text
unfolding onto_first
tokens d [] = []
tokens d (c ∷ s) = let rest = tokens d s in if c == d then [] ∷ rest else onto_first c rest

-- What one `getline(stream, token, d)` reads.
unfoldable pub before : ℕ → Text → Text
before d [] = []
before d (c ∷ s) = let rest = before d s in if c == d then [] else c ∷ rest

-- What it leaves in the stream, the delimiter consumed.
unfoldable pub after : ℕ → Text → Text
after d [] = []
after d (c ∷ s) = let rest = after d s in if c == d then s else rest

pub tokens-append_delimiter :
    (d : ℕ) (t s : Text) → Lacks d t → tokens d (t ++ d ∷ s) ≡ t ∷ tokens d s
unfolding tokens
tokens-append_delimiter d [] s h = ground arith
tokens-append_delimiter d (c ∷ t) s h = rw h.0 (rw (tokens-append_delimiter d t s h.1))

pub tokens_single : (d c : ℕ) (t : Text) → Lacks d (c ∷ t) → tokens d (c ∷ t) ≡ (c ∷ t) ∷ []
unfolding tokens
tokens_single d c [] h = rw h.0
tokens_single d c (e ∷ t) h = rw h.0 (rw (tokens_single d e t h.1))

pub before-append : (d : ℕ) (t s : Text) → Lacks d t → before d (t ++ d ∷ s) ≡ t
unfolding before
before-append d [] s h = ground arith
before-append d (c ∷ t) s h = rw h.0 (ap (λ l. c ∷ l) (before-append d t s h.1))

pub after-append : (d : ℕ) (t s : Text) → Lacks d t → after d (t ++ d ∷ s) ≡ s
unfolding after
after-append d [] s h = ground arith
after-append d (c ∷ t) s h = rw h.0 (after-append d t s h.1)

pub before_all : (d : ℕ) (t : Text) → Lacks d t → before d t ≡ t
unfolding before
before_all d [] h = refl
before_all d (c ∷ t) h = rw h.0 (ap (λ l. c ∷ l) (before_all d t h.1))

pub after_all : (d : ℕ) (t : Text) → Lacks d t → after d t ≡ []
unfolding after
after_all d [] h = refl
after_all d (c ∷ t) h = rw h.0 (after_all d t h.1)

onto_first-Lacks :
    (d c : ℕ) (ts : List Text)
    → (c == d) ≡ false
    → All (Lacks d) ts
    → All (Lacks d) (onto_first c ts)
unfolding onto_first
onto_first-Lacks d c [] h hs = ((h, tt), tt)
onto_first-Lacks d c (t ∷ ts) h hs = ((h, hs.0), hs.1)

pub tokens-Lacks : (d : ℕ) (s : Text) → All (Lacks d) (tokens d s)
unfolding tokens
tokens-Lacks d [] = tt
tokens-Lacks d (c ∷ s) = elim (Bool-cases (c == d)) [
  | inl e ↦ rw e (tt, tokens-Lacks d s)
  | inr e ↦ rw e (onto_first-Lacks d c (tokens d s) e (tokens-Lacks d s))
]

pub Lacks-append : (d : ℕ) (s t : Text) → Lacks d s → Lacks d t → Lacks d (s ++ t)
Lacks-append d [] t hs ht = ht
Lacks-append d (c ∷ s) t hs ht = (hs.0, Lacks-append d s t hs.1 ht)
