-- ===== src/StateManager/Maintenance.antt =====
-- What the periodic maintenance removes.
use segwire.Base.{
  ℕ, ◌*◌, ◌-◌, Bool, true, false, ◌&&◌, none, some, List, [], ◌∷◌, ◌≡◌, refl, arith, if◌then◌else◌,
  any, Bool-cases, inl, inr, ltb, ap, ◌∙◌,
}
use segwire.Text.{Text}
use segwire.Text.Equality.{text_eq, text_eq_iff}
use segwire.Map.{Map, lookup, keys, lookup-remove}
use segwire.Sorting.Duplicates.{contains, all_distinct}
use segwire.NamespaceState.{NamespaceState, is_failed}
use segwire.Netlink.{Netlink}
use segwire.StateManager.{
  NamespaceStateManager, remove_all, expired_keys, perform_maintenance, remove_namespace_state,
}

-- A failed state whose last update is more than an hour back.
abbrev pub is_expired : ℕ → NamespaceState → Bool
is_expired now s = is_failed s && ltb (s.last_updated * 1_000_000_000) (now - 3600 * 1_000_000_000)

any-expired_keys_absent :
    (now : ℕ) (k : Text) (m : Map NamespaceState)
    → contains k (keys m) ≡ false
    → any (λ n. text_eq n k) (expired_keys now m) ≡ false
unfolding expired_keys keys
any-expired_keys_absent now k [] h = refl
any-expired_keys_absent now k ((j, s) ∷ rest) h =
    ground (arith, any-expired_keys_absent now k rest, text_eq_iff k j, text_eq_iff j k)

-- A key is among the expired ones exactly if its state is.
any-expired_keys :
    (now : ℕ) (k : Text) (s : NamespaceState) (m : Map NamespaceState)
    → all_distinct (keys m) ≡ true
    → lookup k m ≡ some s
    → any (λ n. text_eq n k) (expired_keys now m) ≡ is_expired now s
unfolding expired_keys keys lookup
any-expired_keys now k s [] d h = absurd (cc)
any-expired_keys now k s ((j, w) ∷ rest) d h = elim (Bool-cases (text_eq j k)) [
  | inl same ↦
      let e = (text_eq_iff j k).0 same in
      let x : w ≡ s = ground arith in
      rw (← x) (
        ground (
          arith,
          any-expired_keys_absent now k rest (ground (arith, ap (λ n. contains n (keys rest)) e)),
        ))
  | inr other ↦ ground (arith, any-expired_keys now k s rest)
]

module _ {K : Type 0} where
  lookup-remove_all :
      (k : Text) (ns : List Text) (m : NamespaceStateManager K)
      → lookup k (remove_all ns m).namespace_states
        ≡ (if any (λ n. text_eq n k) ns then none else lookup k m.namespace_states)
  unfolding remove_all remove_namespace_state
  lookup-remove_all k [] m = refl
  lookup-remove_all k (n ∷ ns) m = ground (
    arith,
    lookup-remove_all k ns (remove_namespace_state n m),
    lookup-remove n k m.namespace_states,
  )

-- In a map without repeated keys, maintenance removes a state exactly if it has failed and its last update is more than an hour old
-- at the time of the call; every other state stays as it is.
pub lookup-perform_maintenance :
    {K : Type 0} (net : Netlink K) (m : NamespaceStateManager K) (name : Text) (s : NamespaceState)
    → all_distinct (keys m.namespace_states) ≡ true
    → lookup name m.namespace_states ≡ some s
    → lookup name (perform_maintenance net m).namespace_states
      ≡ (if is_expired (net.now m.netlink_manager).0 s then none else some s)
unfolding perform_maintenance
lookup-perform_maintenance net m name s distinct found =
    lookup-remove_all name (expired_keys (net.now m.netlink_manager).0 m.namespace_states) _
    ∙ ground (
      arith,
      found,
      any-expired_keys (net.now m.netlink_manager).0 name s m.namespace_states distinct found,
    )
