-- ===== src/MyIp/Least.antt =====
-- The address that a machine takes for its own.
use spkdfs.Prelude.{
  ◌≡◌, refl, sym, subst, Bool, true, false, Bool-cases, inl, inr, List, [], ◌∷◌, map, any, keep_if,
  All, arith, ℕ, zero, suc, some, some_injective, get_elem?, get_elem?-keep_if,
}
use spkdfs.Exn.{Text, ok, ok_injective}
use spkdfs.Text.{same_text, text_lt, text_lt_irrefl}
use spkdfs.Node.{Node}
use spkdfs.MyIp.{intersection, least, or_no_ip, get_my_ip}

text_lt_trans : (r s t : Text) → text_lt r s ≡ true → text_lt s t ≡ true → text_lt r t ≡ true
unfolding text_lt
text_lt_trans r s [] h k = k
text_lt_trans [] s (b ∷ t) h k = refl
text_lt_trans (a ∷ r) [] (b ∷ t) h k = cc
text_lt_trans (a ∷ r) (d ∷ s) (b ∷ t) h k = ground (arith, text_lt_trans r s t)

least-holds :
    (P : Text → Type 0) (ip : Text) (ips : List Text) → P ip → All P ips → P (least ip ips)
unfolding least
least-holds P ip [] h k = h
least-holds P ip (next ∷ ips) h k = elim (Bool-cases (text_lt next (least ip ips))) [
  | inl e ↦ rw e k.0
  | inr e ↦ rw e (least-holds P ip ips h k.1)
]

least-member :
    (ip : Text) (ips : List Text) → (i : ℕ) × (get_elem? (ip ∷ ips) i ≡ some (least ip ips))
unfolding least
least-member ip [] = (0, refl)
least-member ip (next ∷ ips) = elim (Bool-cases (text_lt next (least ip ips))) [
  | inl e ↦ (1, rw e refl)
  | inr e ↦ rw e (behind (least-member ip ips))
]
  where
    behind :
        (i : ℕ) × (get_elem? (ip ∷ ips) i ≡ some (least ip ips))
        → (i : ℕ) × (get_elem? (ip ∷ next ∷ ips) i ≡ some (least ip ips))
    behind (zero, h) = (0, h)
    behind (suc i, h) = (suc (suc i), h)

abbrev IsBelow : Text → Text → Type 0
IsBelow a ip = text_lt ip a ≡ false

IsBelow-next : (a next rest : Text) → text_lt next rest ≡ true → IsBelow rest a → IsBelow next a
IsBelow-next a next rest e h = elim (Bool-cases (text_lt a next)) [
  | inl f ↦ absurd (cc (text_lt_trans a next rest f e, h))
  | inr f ↦ f
]

All-IsBelow :
    (next rest : Text) (xs : List Text)
    → text_lt next rest ≡ true
    → All (IsBelow rest) xs
    → All (IsBelow next) xs
All-IsBelow next rest [] e h = tt
All-IsBelow next rest (x ∷ xs) e h =
    (IsBelow-next x next rest e h.0, All-IsBelow next rest xs e h.1)

least-IsBelow :
    (ip : Text) (ips : List Text) → IsBelow (least ip ips) ip × All (IsBelow (least ip ips)) ips
unfolding least
least-IsBelow ip [] = (text_lt_irrefl ip, tt)
least-IsBelow ip (next ∷ ips) =
    let (h, k) = least-IsBelow ip ips in
    elim (Bool-cases (text_lt next (least ip ips))) [
      | inl e ↦
          let same : least ip (next ∷ ips) ≡ next = rw e refl in
          subst (λ m. IsBelow m ip × All (IsBelow m) (next ∷ ips)) (sym same)
            (
              IsBelow-next ip next (least ip ips) e h,
              (text_lt_irrefl next, All-IsBelow next (least ip ips) ips e k),
            )
      | inr e ↦
          let same : least ip (next ∷ ips) ≡ least ip ips = rw e refl in
          subst (λ m. IsBelow m ip × All (IsBelow m) (next ∷ ips)) (sym same) (h, (e, k))
    ]

-- What holds of the items that are kept holds of those that pass the test.
All-keep_if :
    (P : Text → Type 0) (p : Text → Bool) (xs : List Text)
    → All P (keep_if p xs)
    → All (λ x. p x ≡ true → P x) xs
All-keep_if P p [] h = tt
All-keep_if P p (x ∷ xs) h = go (p x) refl (All-keep_if P p xs) h
  where
    go :
        (b : Bool)
        → p x ≡ b
        → (All P (keep_if p xs) → All (λ x. p x ≡ true → P x) xs)
        → All P (elim b [ true ↦ x ∷ keep_if p xs | false ↦ keep_if p xs ])
        → All (λ x. p x ≡ true → P x) (x ∷ xs)
    go true e more h = ((λ _. h.0), more h.1)
    go false e more h = ((λ f. absurd (cc (e, f))), more h)

kept_pass : (p : Text → Bool) (xs : List Text) → All (λ x. p x ≡ true) (keep_if p xs)
kept_pass p [] = tt
kept_pass p (x ∷ xs) = go (p x) refl (kept_pass p xs)
  where
    go :
        (b : Bool)
        → p x ≡ b
        → All (λ x. p x ≡ true) (keep_if p xs)
        → All (λ x. p x ≡ true) (elim b [ true ↦ x ∷ keep_if p xs | false ↦ keep_if p xs ])
    go true e more = (e, more)
    go false e more = more

All-nodes :
    (P : Text → Type 0) (vec : List Node)
    → All P (map (λ (n : Node). n.ip) vec)
    → All (λ (n : Node). P n.ip) vec
All-nodes P [] h = tt
All-nodes P (n ∷ vec) h = (h.0, All-nodes P vec h.1)

abbrev pub is_local : List Text → Text → Bool
is_local local ip = any (λ l. same_text l ip) local

-- The address is one of the list.
or_no_ip-member :
    (ips : List Text) {ip : Text} → or_no_ip ips ≡ ok ip → (i : ℕ) × (get_elem? ips i ≡ some ip)
unfolding or_no_ip
or_no_ip-member [] e = absurd (cc)
or_no_ip-member (x ∷ ips) {ip} e =
    subst (λ y. (i : ℕ) × (get_elem? (x ∷ ips) i ≡ some y)) (ok_injective e) (least-member x ips)

get_elem?-nodes :
    (vec : List Node) (i : ℕ) {ip : Text}
    → get_elem? (map (λ (n : Node). n.ip) vec) i ≡ some ip
    → (n : Node) × (get_elem? vec i ≡ some n) × (n.ip ≡ ip)
get_elem?-nodes [] i e = absurd (cc)
get_elem?-nodes (n ∷ vec) zero e = (n, refl, some_injective e)
get_elem?-nodes (n ∷ vec) (suc i) e = get_elem?-nodes vec i e

least_of :
    (local ips : List Text) {ip : Text}
    → All (λ x. is_local local x ≡ true) ips
    → or_no_ip ips ≡ ok ip
    → (is_local local ip ≡ true) × All (IsBelow ip) ips
unfolding or_no_ip
least_of local [] h e = absurd (cc)
least_of local (x ∷ ips) h e =
    subst (λ y. (is_local local y ≡ true) × All (IsBelow y) (x ∷ ips)) (ok_injective e)
      (least-holds (λ y. is_local local y ≡ true) x ips h.0 h.1, least-IsBelow x ips)

-- The address that is returned is one of the machine's and that of a node of the cluster, and no
-- node of the cluster has an address of the machine that comes before it.
pub get_my_ip-least :
    (local : List Text) (vec : List Node) (ip : Text)
    → get_my_ip local vec ≡ ok ip
    → (is_local local ip ≡ true)
      × ((i : ℕ) × (n : Node) × (get_elem? vec i ≡ some n) × (n.ip ≡ ip))
      × All (λ (n : Node). is_local local n.ip ≡ true → text_lt n.ip ip ≡ false) vec
unfolding get_my_ip intersection
get_my_ip-least local vec ip e =
    let ips = map (λ (n : Node). n.ip) vec in
    let (here, below) =
      least_of local (keep_if (is_local local) ips) (kept_pass (is_local local) ips) e in
    let (i, at) = or_no_ip-member (keep_if (is_local local) ips) e in
    let (kept, j, at') = get_elem?-keep_if (is_local local) ips i at in
    let (n, there, same) = get_elem?-nodes vec j at' in
    (
      here,
      (j, n, there, same),
      All-nodes (λ x. is_local local x ≡ true → text_lt x ip ≡ false) vec
          (All-keep_if (IsBelow ip) (is_local local) ips below),
    )
