-- ===== src/Netlink/Real/Agreement/Simulation.antt =====
-- Where the system grants every call, the real backend and the simulated one give the same results.
use segwire.Base.{true, not, ◌&&◌, List, [], ◌∷◌, is_ok, ◌≡◌, refl, arith}
use segwire.Text.{Text}
use segwire.Text.Equality.{text_eq_iff}
use segwire.Host.{Host, create_netns, delete_netns}
use segwire.Netlink.Refinement.{NamespaceCall, create, delete, call_simulated, run_simulated}
use segwire.Netlink.Simulated.{
  SimulatedState, present, create_simulated, delete_simulated, create_simulated_lem,
  delete_simulated_lem,
}
use segwire.Netlink.Real.{create_real, delete_real}
use segwire.Netlink.Real.Agreement.{
  IsFiles, is_valid, has_file, create_real_lem, delete_real_lem, call_real, run_real,
}

pub record IsGranting {K : Type 0} (host : Host K) : Type 0 where
  pub create_file : (p : Text) (k : K) → is_ok (host.create_file p k).0 ≡ true
  pub unshare : (k : K) → is_ok (host.unshare k).0 ≡ true
  pub bind_mount : (p : Text) (k : K) → is_ok (host.bind_mount p k).0 ≡ true
  pub umount : (p : Text) (k : K) → is_ok (host.umount p k).0 ≡ true
  pub remove_file :
      (p : Text) (k : K) → host.exists p k ≡ true → is_ok (host.remove_file p k).0 ≡ true

module _ {K : Type 0} (host : Host K) (files : IsFiles host) (grants : IsGranting host) where
  create_netns-granted : (p : Text) (k : K) → is_ok (create_netns host p k).0 ≡ true
  unfolding create_netns
  create_netns-granted p k = grind (arith, grants.unshare, grants.bind_mount)

  delete_netns-granted :
      (p : Text) (k : K) → host.exists p k ≡ true → is_ok (delete_netns host p k).0 ≡ true
  unfolding delete_netns
  delete_netns-granted p k there =
      let k1 = (host.umount p k).1 in
      ground (arith, grants.umount p k, files.umount p p k, grants.remove_file p k1)

  create_real-granted :
      (name : Text) (k : K)
      → is_ok (create_real host name k).0 ≡ (is_valid name && not (has_file host name k))
  unfolding create_real
  create_real-granted name k = grind (arith, create_netns-granted, grants.create_file)

  delete_real-granted :
      (name : Text) (k : K)
      → is_ok (delete_real host name k).0 ≡ (is_valid name && has_file host name k)
  unfolding delete_real
  delete_real-granted name k = grind (arith, delete_netns-granted)

  -- The same names in the system and in the simulation.
  abbrev pub Agree : K → SimulatedState → Type 0
  Agree k st = (name : Text) → has_file host name k ≡ present name st

  call_agrees :
      (call : NamespaceCall) (k : K) (st : SimulatedState)
      → Agree k st
      → ((call_real host call k).0 ≡ (call_simulated call st).0)
        × Agree (call_real host call k).1 (call_simulated call st).1
  call_agrees (create name) k st h =
      let same : is_ok (create_real host name k).0 ≡ is_ok (create_simulated name st).0 =
        ground (arith, create_real-granted name k, create_simulated_lem name name st, h name) in
      (
        same,
        λ other. ground (
          arith,
          create_real_lem host files name other k,
          create_real-granted name k,
          text_eq_iff name other,
          h name,
          create_simulated_lem name other st,
          h other,
        ),
      )
  call_agrees (delete name) k st h =
      let same : is_ok (delete_real host name k).0 ≡ is_ok (delete_simulated name st).0 =
        ground (arith, delete_real-granted name k, delete_simulated_lem name name st, h name) in
      (
        same,
        λ other. ground (
          arith,
          delete_real_lem host files name other k,
          delete_simulated_lem name other st,
          h other,
        ),
      )

  -- Where the system grants every call and has the names of the simulation, any creations and deletions
  -- succeed in the one exactly as in the other, and leave the same names.
  pub run_real-run_simulated :
      (calls : List NamespaceCall) (k : K) (st : SimulatedState)
      → Agree k st
      → ((run_real host calls k).0 ≡ (run_simulated calls st).0)
        × Agree (run_real host calls k).1 (run_simulated calls st).1
  unfolding run_real run_simulated
  run_real-run_simulated [] k st h = (refl, h)
  run_real-run_simulated (call ∷ calls) k st h =
      let (same, later) = call_agrees call k st h in
      let (results, last) =
        run_real-run_simulated calls (call_real host call k).1 (call_simulated call st).1 later in
      (rw (same, results) refl, last)
