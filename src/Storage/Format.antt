-- ===== src/Storage/Format.antt =====
-- A storage type is read back from its text.
use spkdfs.Prelude.{
  ℕ, ◌≤◌, ◌≡◌, refl, sym, subst, ◌∙◌, Option, none, false, true, ap, some, [], ◌∷◌, ◌++◌, arith,
}
use spkdfs.Prelude.Int.{ℤ, pos, negsuc, int_max}
use spkdfs.Exn.{Text, ok, >>=-eq-ok, ok_injective}
use spkdfs.Text.Decimal.{print, is_digit, stoi}
use spkdfs.Text.Decimal.RoundTrip.{IsDigits, print-IsDigits, print_first, stoi-print, to_string-pos}
use spkdfs.Storage.{
  StorageType, rs, re, storage_to_string, storage_from_string, group, digits_then, match_rs,
  match_re, behind, rs_mark, re_mark, rs_of_groups, re_of_groups, rs_of_mark, re_of_mark, unsolved,
}
use spkdfs.Storage.JsonForm.{FitsInt}
use spkdfs.Text.Decimal.Range.{stoi-IsInt}

-- The parameters that the pattern can write: not negative, and held by an `int`.
abbrev IsCount : ℤ → Type 0
IsCount (pos n) = n ≤ int_max
IsCount (negsuc n) = ⊥

abbrev pub HasCounts : StorageType → Type 0
HasCounts (rs k m b) = IsCount k × IsCount m × IsCount b
HasCounts (re replications b) = IsCount replications × IsCount b

group-append :
    (end : ℕ) (digits s : Text)
    → is_digit end ≡ false
    → IsDigits digits
    → group end (digits ++ end ∷ s) ≡ some (digits, s)
unfolding group
group-append end [] s e h = rw e (ground arith)
group-append end (c ∷ digits) s e h = rw h.0 (rw (group-append end digits s e h.1))

digits_then-print :
    (end n : ℕ) (s : Text)
    → is_digit end ≡ false
    → digits_then end (print n ++ end ∷ s) ≡ some (print n, s)
digits_then-print end n s e =
    let (c, t, p, d) = print_first n in
    ap (λ l. digits_then end (l ++ end ∷ s)) p
    ∙ head c t d
    ∙ ap (λ l. group end (l ++ end ∷ s)) (sym p)
    ∙ group-append end (print n) s e (print-IsDigits n)
  where
    head :
        (c : ℕ) (t : Text)
        → is_digit c ≡ true
        → digits_then end ((c ∷ t) ++ end ∷ s) ≡ group end ((c ∷ t) ++ end ∷ s)
    head c t d = unfold digits_then in rw d

-- A storage type whose parameters are not negative and fit an `int` is read back from its text.
pub storage_from_string-storage_to_string :
    (st : StorageType) → HasCounts st → storage_from_string (storage_to_string st) ≡ ok st
unfolding storage_from_string storage_to_string match_rs match_re is_digit
storage_from_string-storage_to_string (rs (pos k) (pos m) (pos b)) h = simp (
  to_string-pos,
  digits_then-print b',' k _ refl,
  digits_then-print b',' m _ refl,
  digits_then-print b'>' b [] refl,
  stoi-print k h.0,
  stoi-print m h.1,
  stoi-print b h.2,
)
storage_from_string-storage_to_string (re (pos r) (pos b)) h = simp (
  to_string-pos,
  digits_then-print b',' r _ refl,
  digits_then-print b'>' b [] refl,
  stoi-print r h.0,
  stoi-print b h.1,
)
storage_from_string-storage_to_string (rs (negsuc k) m b) h = absurd h.0
storage_from_string-storage_to_string (rs (pos k) (negsuc m) b) h = absurd h.1
storage_from_string-storage_to_string (rs (pos k) (pos m) (negsuc b)) h = absurd h.2
storage_from_string-storage_to_string (re (negsuc k) b) h = absurd h.0
storage_from_string-storage_to_string (re (pos k) (negsuc b)) h = absurd h.1

rs_of_groups-FitsInt :
    (input : Text) (g : Option (Text × Text × Text)) {st : StorageType}
    → rs_of_groups input g ≡ ok st
    → FitsInt st
unfolding rs_of_groups unsolved
rs_of_groups-FitsInt input none e = absurd (cc)
rs_of_groups-FitsInt input (some (k, m, b)) e =
    let (zk, ek, e1) = >>=-eq-ok (stoi k) _ e in
    let (zm, em, e2) = >>=-eq-ok (stoi m) _ e1 in
    let (zb, eb, e3) = >>=-eq-ok (stoi b) _ e2 in
    subst FitsInt (ok_injective e3) (stoi-IsInt k ek, stoi-IsInt m em, stoi-IsInt b eb)

re_of_groups-FitsInt :
    (input : Text) (g : Option (Text × Text)) {st : StorageType}
    → re_of_groups input g ≡ ok st
    → FitsInt st
unfolding re_of_groups unsolved
re_of_groups-FitsInt input none e = absurd (cc)
re_of_groups-FitsInt input (some (r, b)) e =
    let (zr, er, e1) = >>=-eq-ok (stoi r) _ e in
    let (zb, eb, e2) = >>=-eq-ok (stoi b) _ e1 in
    subst FitsInt (ok_injective e2) (stoi-IsInt r er, stoi-IsInt b eb)

re_of_mark-FitsInt :
    (input : Text) (o : Option Text) {st : StorageType} → re_of_mark input o ≡ ok st → FitsInt st
unfolding re_of_mark unsolved
re_of_mark-FitsInt input none e = absurd (cc)
re_of_mark-FitsInt input (some s) e = re_of_groups-FitsInt input (match_re s) e

rs_of_mark-FitsInt :
    (input : Text) (o : Option Text) {st : StorageType} → rs_of_mark input o ≡ ok st → FitsInt st
unfolding rs_of_mark
rs_of_mark-FitsInt input none e = re_of_mark-FitsInt input (behind re_mark input) e
rs_of_mark-FitsInt input (some s) e = rs_of_groups-FitsInt input (match_rs s) e

-- Whatever the text, a storage type that is read from it has parameters that are `int`s.
pub storage_from_string-FitsInt :
    (input : Text) {st : StorageType} → storage_from_string input ≡ ok st → FitsInt st
storage_from_string-FitsInt input e =
    rs_of_mark-FitsInt input (behind rs_mark input) (unfold storage_from_string in e)
