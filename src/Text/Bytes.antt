-- ===== src/Text/Bytes.antt =====
-- `std::string` as the list of its bytes: literals, and comparison.
use Prim.Native.Char.{code}
use Prim.Native.String.{String}
use spkdfs.Prelude.{◌≡◌, refl, ◌↔◌, Bool, true, false, ◌&&◌, [], ◌∷◌, arith, ◌==◌, ltb}
use spkdfs.Exn.{Text}

-- The bytes of an ASCII literal.
unfoldable pub codes : String → Text
codes String.[] = []
codes (String.◌∷◌ c s) = code c ∷ codes s

-- `a == b` on `std::string`.
unfoldable pub same_text : Text → Text → Bool
same_text [] [] = true
same_text (a ∷ s) (b ∷ t) = a == b && same_text s t
same_text _ _ = false

-- `a < b` on `std::string`, by bytes.
unfoldable pub text_lt : Text → Text → Bool
text_lt s [] = false
text_lt [] (b ∷ t) = true
text_lt (a ∷ s) (b ∷ t) =
    let rest = text_lt s t in
    elim (ltb a b) [ true ↦ true | false ↦ elim (a == b) [ true ↦ rest | false ↦ false ] ]

pub same_text_refl : (s : Text) → same_text s s ≡ true
unfolding same_text
same_text_refl [] = refl
same_text_refl (a ∷ s) = ground (arith, same_text_refl s)

pub eq_of_same_text : (s t : Text) → same_text s t ≡ true → s ≡ t
unfolding same_text
eq_of_same_text [] [] h = refl
eq_of_same_text [] (b ∷ t) h = cc
eq_of_same_text (a ∷ s) [] h = cc
eq_of_same_text (a ∷ s) (b ∷ t) h = ground (arith, eq_of_same_text s t)

pub same_text_iff : (s t : Text) → (same_text s t ≡ true) ↔ (s ≡ t)
same_text_iff s t = (eq_of_same_text s t, λ p. rw p (same_text_refl t))

pub text_lt_irrefl : (s : Text) → text_lt s s ≡ false
unfolding text_lt
text_lt_irrefl [] = refl
text_lt_irrefl (c ∷ s) = ground (arith, text_lt_irrefl s)
