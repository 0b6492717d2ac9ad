-- ===== src/Server/Membership.antt =====
-- A server runs a namenode exactly while the agreed list names it.
use spkdfs.Prelude.{
  ◌≡◌, sym, ap, ◌∙◌, Bool, true, false, Bool-cases, inl, inr, Option, none, some, List,
}
use spkdfs.Exn.{Text, ok, >>=-eq-ok, ok_injective}
use spkdfs.Node.{Node}
use spkdfs.Server.{
  Effect, Services, is_namenode, add_services, on_namenodes_change, on_member, on_other,
}

abbrev pub is_set : {A : Type 0} → Option A → Bool
is_set none = false
is_set (some a) = true

member_set :
    (services : Services) (namenodes : List Node) (old : Option (List Node))
    {new : Option (Unit {0})} {effects : List Effect}
    → on_member services namenodes old ≡ ok (new, effects)
    → is_set new ≡ true
unfolding on_member
member_set services namenodes (some peers) e =
    ap (λ (r : Option (Unit {0}) × List Effect). is_set r.0) (sym (ok_injective e))
member_set services namenodes none e =
    let (u, _, r) = >>=-eq-ok (add_services services) _ e in
    ap (λ (r : Option (Unit {0}) × List Effect). is_set r.0) (sym (ok_injective r))

other_set :
    (old : Option (List Node)) {new : Option (Unit {0})} {effects : List Effect}
    → on_other old ≡ ok (new, effects)
    → is_set new ≡ false
unfolding on_other
other_set (some peers) e =
    ap (λ (r : Option (Unit {0}) × List Effect). is_set r.0) (sym (ok_injective e))
other_set none e = ap (λ (r : Option (Unit {0}) × List Effect). is_set r.0) (sym (ok_injective e))

-- A change that does not throw leaves a namenode running exactly if the new list names the server,
-- whether one ran before or not.
pub on_namenodes_change-is_set :
    (services : Services) (my_ip : Text) (namenodes : List Node) (old : Option (List Node))
    (new : Option (Unit {0})) (effects : List Effect)
    → on_namenodes_change services my_ip namenodes old ≡ ok (new, effects)
    → is_set new ≡ is_namenode my_ip namenodes
unfolding on_namenodes_change
on_namenodes_change-is_set services my_ip namenodes old new effects e =
    elim (Bool-cases (is_namenode my_ip namenodes)) [
      | inl named ↦ member_set services namenodes old (rw named at e) ∙ sym named
      | inr other ↦ other_set old (rw other at e) ∙ sym other
    ]
