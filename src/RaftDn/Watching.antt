-- ===== src/RaftDn/Watching.antt =====
-- How the first of the datanodes watches the namenodes.
use spkdfs.Prelude.{
  ℕ, zero, suc, ◌+◌, ◌≡◌, refl, Bool, false, Bool-cases, inl, inr, ◌⊎◌, some, some_injective, List,
  [], ◌∷◌, get_elem?, ap, ◌∙◌,
}
use spkdfs.Exn.{Text}
use spkdfs.Node.{Node}
use spkdfs.RaftDn.{watch, on_interval, RaftDn}

-- The probes at `t` and at the `retries` times after it fail.
abbrev pub FailsFrom : (ℕ → Node → Bool) → ℕ → ℕ → Node → Type 0
FailsFrom answers t zero n = answers t n ≡ false
FailsFrom answers t (suc retries) n = (answers t n ≡ false) × FailsFrom answers (t + 1) retries n

module _ (answers : ℕ → Node → Bool) where
  abbrev Reported : Text → ℕ → ℕ → List Node → Type 0
  Reported ip t retries [] = ⊥
  Reported ip t retries (n ∷ nodes) =
      ((n.ip ≡ ip) × FailsFrom answers t retries n) ⊎ ((t' : ℕ) × Reported ip t' 3 nodes)

  again-Reported :
      (ip : Text) (t retries : ℕ) (n : Node) (nodes : List Node)
      → answers t n ≡ false
      → Reported ip (t + 1) retries (n ∷ nodes)
      → Reported ip t (suc retries) (n ∷ nodes)
  again-Reported ip t retries n nodes off (inl here) = inl (here.0, (off, here.1))
  again-Reported ip t retries n nodes off (inr later) = inr later

  watch-Reported :
      (ip : Text) (t retries : ℕ) (nodes : List Node)
      → watch answers t retries nodes ≡ some ip
      → Reported ip t retries nodes
  unfolding watch
  watch-Reported ip t retries [] e = cc
  watch-Reported ip t zero (n ∷ nodes) e = elim (Bool-cases (answers t n)) [
    | inl on ↦ inr (t + 1, watch-Reported ip (t + 1) 3 nodes (rw on at e))
    | inr off ↦ inl (some_injective (rw off at e), off)
  ]
  watch-Reported ip t (suc retries) (n ∷ nodes) e = elim (Bool-cases (answers t n)) [
    | inl on ↦ inr (t + 1, watch-Reported ip (t + 1) 3 nodes (rw on at e))
    | inr off ↦
        again-Reported ip t retries n nodes off
          (watch-Reported ip (t + 1) retries (n ∷ nodes) (rw off at e))
  ]

  Reported-member :
      (ip : Text) (t : ℕ) (nodes : List Node)
      → Reported ip t 3 nodes
      → (i : ℕ) × (n : Node) × (t' : ℕ) × (get_elem? nodes i ≡ some n)
        × (n.ip ≡ ip)
        × FailsFrom answers t' 3 n
  Reported-member ip t [] r = absurd r
  Reported-member ip t (n ∷ nodes) (inl here) = (0, n, t, refl, here.0, here.1)
  Reported-member ip t (n ∷ nodes) (inr (t', r)) =
      let (i, m, u, at, same, fails) = Reported-member ip t' nodes r in
      (suc i, m, u, at, same, fails)

  silent_reported :
      (n : Node)
      → ((t : ℕ) → answers t n ≡ false)
      → (t retries i : ℕ) (nodes : List Node) → get_elem? nodes i ≡ some n
      → (ip : Text) × (watch answers t retries nodes ≡ some ip)
  unfolding watch
  silent_reported n silent t retries i [] at = absurd (cc)
  silent_reported n silent t zero zero (m ∷ nodes) at =
      let off = ap (answers t) (some_injective at) ∙ silent t in (m.ip, rw off refl)
  silent_reported n silent t (suc retries) zero (m ∷ nodes) at =
      let off = ap (answers t) (some_injective at) ∙ silent t in
      let (ip, e) = silent_reported n silent (t + 1) retries zero (m ∷ nodes) at in (ip, rw off e)
  silent_reported n silent t zero (suc i) (m ∷ nodes) at = elim (Bool-cases (answers t m)) [
    | inl on ↦ let (ip, e) = silent_reported n silent (t + 1) 3 i nodes at in (ip, rw on e)
    | inr off ↦ (m.ip, rw off refl)
  ]
  silent_reported n silent t (suc retries) (suc i) (m ∷ nodes) at =
      elim (Bool-cases (answers t m)) [
        | inl on ↦ let (ip, e) = silent_reported n silent (t + 1) 3 i nodes at in (ip, rw on e)
        | inr off ↦
            let (ip, e) = silent_reported n silent (t + 1) retries (suc i) (m ∷ nodes) at in
            (ip, rw off e)
      ]

-- The timer's loop reports the address of a namenode only after four probes of it in a row have
-- failed; and if some namenode answers no probe, it reports an address.
pub on_interval-lost :
    (answers : ℕ → Node → Bool) (self : RaftDn)
    → ((ip : Text)
        → on_interval answers self ≡ some ip
        → (i : ℕ) × (n : Node) × (t : ℕ) × (get_elem? self.namenode_list i ≡ some n)
          × (n.ip ≡ ip)
          × FailsFrom answers t 3 n)
      × ((i : ℕ) (n : Node)
          → get_elem? self.namenode_list i ≡ some n
          → ((t : ℕ) → answers t n ≡ false)
          → (ip : Text) × (on_interval answers self ≡ some ip))
unfolding on_interval
on_interval-lost answers self = (
  λ ip e.
      Reported-member answers ip 0 self.namenode_list
        (watch-Reported answers ip 0 3 self.namenode_list e),
  λ i n at silent. silent_reported answers n silent 0 3 i self.namenode_list at,
)
