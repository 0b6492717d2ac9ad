-- ===== src/Sdk/Connect/Distinct.antt =====
-- The client never reads from the namenode that it writes to.
use spkdfs.Prelude.{
  ◌≡◌, ◌≢◌, sym, ap, subst, ◌∙◌, ℕ, ◌%◌, true, false, not, Option, none, some, List, [], ◌∷◌,
  length, get_elem?, get_elem?-keep_if, keep_if, ◌⊎◌, inl, inr, Bool-cases,
}
use spkdfs.Exn.{Text, ok, >>=-eq-ok, ok_injective, or_end}
use spkdfs.Text.{same_text, same_text_refl, eq_of_same_text, codes}
use spkdfs.Sdk.Connect.{
  Services, Connection, get_slave_namenode, init_channel, first_slave, settle_slave, connect,
}

-- What `get_slave_namenode` returns stands in the list.
get_slave_namenode-eq-ok :
    (rand : ℕ) (namenodes : List Text) {slave : Text}
    → get_slave_namenode rand namenodes ≡ ok slave
    → (i : ℕ) × (get_elem? namenodes i ≡ some slave)
unfolding get_slave_namenode
get_slave_namenode-eq-ok rand [] e = absurd (cc)
get_slave_namenode-eq-ok rand (n ∷ namenodes) {slave} e = (
  rand % length (n ∷ namenodes),
  go (get_elem? (n ∷ namenodes) (rand % length (n ∷ namenodes))) e,
)
  where
    go : (o : Option Text) → or_end o ≡ ok slave → o ≡ some slave
    go none h = absurd (cc)
    go (some x) h = ap some (ok_injective h)

first_slave-eq-ok :
    (rand : ℕ) (namenode : Text) (namenodes : List Text) {slave : Text}
    → first_slave rand namenode namenodes ≡ ok slave
    → (slave ≡ namenode) ⊎ ((i : ℕ) × (get_elem? namenodes i ≡ some slave))
unfolding first_slave
first_slave-eq-ok rand [] namenodes e = inr (get_slave_namenode-eq-ok rand namenodes e)
first_slave-eq-ok rand (b ∷ namenode) namenodes e = inl (sym (ok_injective e))

-- What is settled on is not the master, and it was listed or is the first choice.
settle_slave-eq-ok :
    (net : Services) (rand : ℕ) (namenodes : List Text) (slave master : Text) {other : Text}
    → settle_slave net rand namenodes slave master ≡ ok other
    → (other ≢ master) × ((other ≡ slave) ⊎ ((i : ℕ) × (get_elem? namenodes i ≡ some other)))
unfolding settle_slave
settle_slave-eq-ok net rand namenodes slave master {other} e =
    elim (Bool-cases (same_text master slave)) [
      | inr q ↦
          let same : slave ≡ other = ok_injective (rw q at e) in
          (
            λ f. cc (subst (λ t. same_text master t ≡ false) (same ∙ f) q, same_text_refl master),
            inl (sym same),
          )
      | inl q ↦
          let (x, found, e1) =
            >>=-eq-ok (get_slave_namenode rand (keep_if (λ n. not (same_text n slave)) namenodes)) _
              (rw q at e) in
          let (u, _, e2) = >>=-eq-ok (init_channel net (codes "namenode_slave") x) _ e1 in
          let (i, there) = get_slave_namenode-eq-ok rand _ found in
          let (differs, j, listed) =
            get_elem?-keep_if (λ n. not (same_text n slave)) namenodes i there in
          let same : x ≡ other = ok_injective e2 in
          (
            λ f.
                let again : same_text x slave ≡ true =
                  subst (λ t. same_text x t ≡ true) (same ∙ f ∙ eq_of_same_text master slave q)
                    (same_text_refl x) in
                cc (ap not again, differs),
            inr (j, listed ∙ ap some same),
          )
    ]

-- If a datanode lists its namenodes and the constructor returns, the client reads from another
-- namenode than the one that it writes to, and it reads from the namenode that it was given or from
-- one of those that are listed.
pub connect-distinct :
    (net : Services) (rand rand' : ℕ) (datanode namenode : Text) {namenodes : List Text}
    {c : Connection}
    → net.get_namenodes datanode ≡ ok namenodes
    → connect net rand rand' datanode namenode ≡ ok c
    → (c.slave ≢ c.master)
      × ((c.slave ≡ namenode) ⊎ ((i : ℕ) × (get_elem? namenodes i ≡ some c.slave)))
unfolding connect
connect-distinct net rand rand' datanode namenode {namenodes} {c} listed e =
    let (slave, chosen, e1) = >>=-eq-ok (first_slave rand namenode namenodes) _ (rw listed at e) in
    let (u, _, e2) = >>=-eq-ok (init_channel net (codes "namenode_slave") slave) _ e1 in
    let (master, _, e3) = >>=-eq-ok (net.get_master slave) _ e2 in
    let (u', _, e4) = >>=-eq-ok (init_channel net (codes "namenode_master") master) _ e3 in
    let (other, settled, e5) = >>=-eq-ok (settle_slave net rand' namenodes slave master) _ e4 in
    let (differs, place) = settle_slave-eq-ok net rand' namenodes slave master settled in
    rw (← ok_injective e5) (
      differs,
      elim place [
        | inr p ↦ inr p
        | inl same ↦ rw (same) (first_slave-eq-ok rand namenode namenodes chosen)
      ],
    )
