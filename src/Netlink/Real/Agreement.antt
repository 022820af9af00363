-- ===== src/Netlink/Real/Agreement.antt =====
-- The real backend against the abstract network and the simulated one: which names there are behind any
-- calls that create and delete namespaces.
pub mod Simulation
use segwire.Base.{
  Bool, true, false, not, ◌&&◌, ◌||◌, List, [], ◌∷◌, ◌++◌, Result, ok, err, is_ok, ◌≡◌, refl, sym,
  ◌∙◌, ap, arith, Bool-cases, inl, inr,
}
use segwire.Text.{Text}
use segwire.Text.Equality.{text_eq, text_eq_iff}
use segwire.Utils.Names.{validate_namespace_name}
use segwire.Host.{Host, create_netns, delete_netns}
use segwire.Netlink.Refinement.{NamespaceCall, create, delete, Names, call_abstract}
use segwire.Netlink.Real.{ns_path_of, netns_run_dir, create_real, delete_real}

-- What the calls do to the files: one that is created is there, one that is removed was there and is not, a
-- failure and the calls about namespaces change none. Any call may fail.
pub record IsFiles {K : Type 0} (host : Host K) : Type 0 where
  pub create_file :
      (p q : Text) (k : K)
      → host.exists q (host.create_file p k).1
        ≡ (host.exists q k || (text_eq p q && is_ok (host.create_file p k).0))
  pub remove_file :
      (p q : Text) (k : K)
      → host.exists q (host.remove_file p k).1
        ≡ (host.exists q k && not (text_eq p q && is_ok (host.remove_file p k).0))
  pub removed :
      (p : Text) (k : K)
      → is_ok (host.remove_file p k).0 ≡ (is_ok (host.remove_file p k).0 && host.exists p k)
  pub unshare : (q : Text) (k : K) → host.exists q (host.unshare k).1 ≡ host.exists q k
  pub bind_mount : (p q : Text) (k : K) → host.exists q (host.bind_mount p k).1 ≡ host.exists q k
  pub umount : (p q : Text) (k : K) → host.exists q (host.umount p k).1 ≡ host.exists q k

text_eq-append : (p s t : Text) → text_eq (p ++ s) (p ++ t) ≡ text_eq s t
unfolding text_eq
text_eq-append [] s t = refl
text_eq-append (c ∷ p) s t = ground (arith, text_eq-append p s t)

text_eq-ns_path_of : (s t : Text) → text_eq (ns_path_of s) (ns_path_of t) ≡ text_eq s t
unfolding ns_path_of text_eq
text_eq-ns_path_of s t = text_eq-append netns_run_dir (b'/' ∷ s) (b'/' ∷ t) ∙ ground arith

abbrev pub is_valid : Text → Bool
is_valid name = is_ok (validate_namespace_name name)

module _ {K : Type 0} (host : Host K) where
  abbrev pub has_file : Text → K → Bool
  has_file name k = host.exists (ns_path_of name) k

  -- The placeholder cannot be removed behind the calls of a creation.
  abbrev pub removal_refused : Text → K → Bool
  removal_refused name k =
      let path = ns_path_of name in
      not (is_ok (host.remove_file path (create_netns host path (host.create_file path k).1).1).0)

  module _ (files : IsFiles host) where
    create_netns-exists :
        (p q : Text) (k : K) → host.exists q (create_netns host p k).1 ≡ host.exists q k
    unfolding create_netns
    create_netns-exists p q k = grind (arith, files.unshare, files.bind_mount)

    delete_netns-exists :
        (p q : Text) (k : K)
        → host.exists q (delete_netns host p k).1
          ≡ (host.exists q k && not (text_eq p q && is_ok (delete_netns host p k).0))
    unfolding delete_netns
    delete_netns-exists p q k =
        let k1 = (host.umount p k).1 in
        ground (
          arith,
          files.umount p q k,
          files.umount p p k,
          files.removed p k1,
          files.remove_file p q k1,
          text_eq_iff p q,
        )

    -- A creation that succeeds is of a valid name that was not there, and puts it in. Whether it succeeds or
    -- not, no other name comes or goes, none goes, and one that comes is valid.
    pub create_real_lem :
        (name other : Text) (k : K)
        → (is_ok (create_real host name k).0 ≡ (
            is_ok (create_real host name k).0
            && (is_valid name
                && (not (has_file name k) && has_file name (create_real host name k).1))))
          × (has_file name (create_real host name k).1
              ≡ (has_file name k || (is_valid name && has_file name (create_real host name k).1)))
          × (has_file other (create_real host name k).1 ≡ (
              has_file other k
              || (text_eq name other && has_file name (create_real host name k).1)))
    unfolding create_real
    create_real_lem name other k = grind (
      arith, create_netns-exists, files.create_file, files.remove_file, files.removed, text_eq_iff,
      text_eq-ns_path_of,
    )

    -- A creation that fails leaves its placeholder only where the system refuses to remove it.
    pub create_real-removed :
        (name : Text) (k : K)
        → is_ok (create_real host name k).0 ≡ false
        → removal_refused name k ≡ false
        → has_file name (create_real host name k).1 ≡ has_file name k
    unfolding create_real
    create_real-removed name k failed removed = grind (
      arith, create_netns-exists, files.create_file, files.remove_file, files.removed, text_eq_iff,
      text_eq-ns_path_of,
    )

    pub delete_real_lem :
        (name other : Text) (k : K)
        → (is_ok (delete_real host name k).0
            ≡ (is_ok (delete_real host name k).0 && (is_valid name && has_file name k)))
          × (has_file other (delete_real host name k).1
              ≡ (has_file other k && not (text_eq name other && is_ok (delete_real host name k).0)))
    unfolding delete_real
    delete_real_lem name other k =
        grind (arith, delete_netns-exists, text_eq-ns_path_of, text_eq_iff)

  -- A call, with whether it succeeded.
  abbrev pub call_real : NamespaceCall → K → Bool × K
  call_real (create name) k = let (r, k') = create_real host name k in (is_ok r, k')
  call_real (delete name) k = let (r, k') = delete_real host name k in (is_ok r, k')

  unfoldable pub run_real : List NamespaceCall → K → List Bool × K
  unfolding create_real delete_real
  run_real [] k = ([], k)
  run_real (call ∷ calls) k =
      let (success, k') = call_real call k in
      let (rest, last) = run_real calls k' in (success ∷ rest, last)

-- What a call may come to besides: it is refused, or it is a creation that fails and whose placeholder cannot
-- be removed.
pub data Outcome : Type 0 where
  done refused left_behind : Outcome

-- The abstract network with what each call comes to: a creation that leaves its placeholder fails, and has
-- the effect of one that succeeds.
abbrev pub call_granted : Outcome → NamespaceCall → Names → Bool × Names
call_granted done call names = call_abstract call names
call_granted refused call names = (false, names)
call_granted left_behind (create name) names = (false, (call_abstract (create name) names).1)
call_granted left_behind (delete name) names = (false, names)

unfoldable pub run_granted : List Outcome → List NamespaceCall → Names → List Bool × Names
run_granted grants [] names = ([], names)
run_granted [] (call ∷ calls) names = ([], names)
run_granted (grant ∷ grants) (call ∷ calls) names =
    let (success, names') = call_granted grant call names in
    let (rest, last) = run_granted grants calls names' in (success ∷ rest, last)

abbrev pub outcome_for : Bool → Bool → Outcome
outcome_for true left_over = done
outcome_for false true = left_behind
outcome_for false false = refused

module _ {K : Type 0} (host : Host K) where
  -- The file of the name has come.
  abbrev pub has_come : Text → K → K → Bool
  has_come name k k' = not (has_file host name k) && has_file host name k'

  abbrev pub outcome : NamespaceCall → K → Outcome
  outcome (create name) k =
      let (r, k') = create_real host name k in
      outcome_for (is_ok r) (has_come name k k' && removal_refused host name k)
  outcome (delete name) k = outcome_for (is_ok (delete_real host name k).0) false

  unfoldable pub outcomes : List NamespaceCall → K → List Outcome
  outcomes [] k = []
  outcomes (call ∷ calls) k = outcome call k ∷ outcomes calls (call_real host call k).1

  -- The files of the directory are exactly the names of the set.
  abbrev pub HasNames : K → Names → Type 0
  HasNames k names = (name : Text) → has_file host name k ≡ names name

  module _ (files : IsFiles host) where
    call_lem :
        (call : NamespaceCall) (k : K) (names : Names)
        → HasNames k names
        → ((call_granted (outcome call k) call names).0 ≡ (call_real host call k).0)
          × HasNames (call_real host call k).1 (call_granted (outcome call k) call names).1
    call_lem (create name) k names h =
        let lem = create_real_lem host files name in
        let k' = (create_real host name k).1 in
        elim (Bool-cases (is_ok (create_real host name k).0)) [
          | inl success ↦ rw success (
            ground (arith, lem name k, h name),
            λ other. ground (arith, lem name k, lem other k, h name, h other),
          )
          | inr failed ↦ elim (Bool-cases (has_come name k k' && removal_refused host name k)) [
            | inl come ↦
                rw (failed, come)
                  (refl, λ other. ground (arith, lem name k, lem other k, h name, h other))
            | inr gone ↦
                let removed = create_real-removed host files name k failed in
                rw (failed, gone)
                  (
                    refl,
                    λ other. ground (arith, lem other k, h other, h name, text_eq_iff name other),
                  )
          ]
        ]
    call_lem (delete name) k names h =
        let lem = delete_real_lem host files name in
        elim (Bool-cases (is_ok (delete_real host name k).0)) [
          | inl success ↦ rw success (
            ground (arith, lem name k, h name),
            λ other. ground (arith, lem name k, lem other k, h name, h other),
          )
          | inr failed ↦ rw failed (refl, λ other. ground (arith, lem other k, h other))
        ]

    -- Every sequence of creations and deletions has, in the system, the results and the names of the
    -- abstract network, whichever calls of the system fail: one that succeeds is one that the set of names
    -- allows, and has its effect; one that fails takes no name away and adds none, but for a creation whose
    -- placeholder cannot be removed, which adds its own.
    pub run_real-run_granted :
        (calls : List NamespaceCall) (k : K) (names : Names)
        → HasNames k names
        → ((run_granted (outcomes calls k) calls names).0 ≡ (run_real host calls k).0)
          × HasNames (run_real host calls k).1 (run_granted (outcomes calls k) calls names).1
    unfolding run_real run_granted outcomes
    run_real-run_granted [] k names h = (refl, h)
    run_real-run_granted (call ∷ calls) k names h =
        let (same, later) = call_lem call k names h in
        let (results, last) = run_real-run_granted calls (call_real host call k).1 _ later in
        (rw (same, results) refl, last)
