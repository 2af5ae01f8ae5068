-- ===== src/Vpn/Register/Live.antt =====
-- The live table of the VPN server under `registerVPNPeer`, provider/onprem/provisioner.go, and the
-- registration of an address that `allocateVPNIP` has chosen.
use public_cloud_vm_provisio.Prelude.{
  String, ◌≡◌, sym, ap, ◌∙◌, ◌≢◌, ◌⊎◌, inl, inr, true, none, some, List, ◌==◌, eq_iff, Bool-cases,
  Option-cases,
}
use public_cloud_vm_provisio.Vpn.Allocate.{chosen, known_peers, lookup_peer, allocate_vpn_ip}
use public_cloud_vm_provisio.Vpn.Allocate.Free.{IsWalk, allocate-unknown}
use public_cloud_vm_provisio.Vpn.Register.{
  WireGuard, IsWireGuard, Server, RegisterEnv, registered, persist_step, set_step,
  register_vpn_peer, persist_peer,
}

some-injective : {x y : String} → some x ≡ some y → x ≡ y
some-injective e = cc

module _ {ℓ} {T : Type ℓ} (wg : WireGuard T) where
  -- The dump that was read shows the table as it is.
  unfoldable pub IsRead : RegisterEnv → Server T → Type 0
  IsRead env s = (ip : String) → lookup_peer (known_peers env.dump) ip ≡ wg.owner s.table ip

  persist-table :
      (env : RegisterEnv) (key ip : String) (s : Server T)
      → (persist_step wg env key ip s).0.table ≡ s.table
  unfolding persist_step
  persist-table env key ip s = elim (Option-cases env.persist_error) [
    | inl e ↦ rw (persist_step, e)
    | inr (left, e) ↦ rw (persist_step, e)
  ]

  set-table :
      (env : RegisterEnv) (key ip : String) (s : Server T)
      → ((set_step wg env key ip s).0.table ≡ s.table)
        ⊎ ((set_step wg env key ip s).0.table ≡ wg.set_peer key ip s.table)
  unfolding set_step
  set-table env key ip s = elim (Bool-cases env.set) [
    | inl e ↦ inr (
        rw (set_step, e)
          (persist-table env key ip (record s { table = wg.set_peer key ip s.table })))
    | inr e ↦ inl (rw (set_step, e))
  ]

  set-registered :
      (env : RegisterEnv) (key ip : String) (s : Server T)
      → (set_step wg env key ip s).1 ≡ registered
      → set_step wg env key ip s ≡ (
        record { table = wg.set_peer key ip s.table; conf = some (persist_peer key ip s.conf) },
        registered,
      )
  unfolding set_step persist_step
  set-registered env key ip s h = elim (Bool-cases env.set) [
    | inr e ↦ cc (rw (set_step, e) at h)
    | inl e ↦ elim (Option-cases env.persist_error) [
      | inl fine ↦ rw (set_step, e, persist_step, fine)
      | inr (left, bad) ↦ cc (rw (set_step, e, persist_step, bad) at h)
    ]
  ]

  IsUnowned : RegisterEnv → String → String → Type 0
  IsUnowned env key ip =
      (lookup_peer (known_peers env.dump) ip ≡ none)
      ⊎ (lookup_peer (known_peers env.dump) ip ≡ some key)

  -- It ends with an error and the server as before, or goes on to step 3, and the address was
  -- nobody's or the peer's own by the dump.
  register-steps :
      (env : RegisterEnv) (key ip : String) (s : Server T)
      → (((register_vpn_peer wg env key ip s).1 ≢ registered)
          × ((register_vpn_peer wg env key ip s).0.table ≡ s.table))
        ⊎ ((register_vpn_peer wg env key ip s ≡ set_step wg env key ip s) × IsUnowned env key ip)
  unfolding register_vpn_peer IsUnowned
  register-steps env key ip s = elim (Bool-cases env.forwarded) [
    | inr e ↦ inl (rw (register_vpn_peer, e) (λ h. cc), rw (register_vpn_peer, e))
    | inl e ↦ elim (Option-cases (lookup_peer (known_peers env.dump) ip)) [
      | inl free ↦ inr (rw (register_vpn_peer, e, free), inl free)
      | inr (existing, found) ↦ elim (Bool-cases (existing == key)) [
        | inr other ↦ inl (
          rw (register_vpn_peer, e, found, other) (λ h. cc),
          rw (register_vpn_peer, e, found, other),
        )
        | inl own ↦ inr (
          rw (register_vpn_peer, e, found, own),
          inr (found ∙ ap some ((eq_iff existing key).0 own)),
        )
      ]
    ]
  ]

  pub register-succeeds :
      (env : RegisterEnv) (key ip : String) (s : Server T)
      → env.forwarded ≡ true
      → env.set ≡ true
      → env.persist_error ≡ none
      → lookup_peer (known_peers env.dump) ip ≡ none
      → (register_vpn_peer wg env key ip s).1 ≡ registered
  unfolding register_vpn_peer set_step persist_step
  register-succeeds env key ip s up set saved free =
      rw (register_vpn_peer, up, free, set_step, set, persist_step, saved)

  module _ (law : IsWireGuard wg) where
    -- Where the server's table could be read, a registration takes no address from another peer,
    -- however it ends.
    pub register-keeps :
        (env : RegisterEnv) (key ip : String) (s : Server T) (jp other : String)
        → IsRead env s
        → other ≢ key
        → wg.owner s.table jp ≡ some other
        → wg.owner (register_vpn_peer wg env key ip s).0.table jp ≡ some other
    unfolding IsRead IsUnowned
    register-keeps env key ip s jp other read differs owned = elim (register-steps env key ip s) [
      | inl (bad, same) ↦ ap (λ t. wg.owner t jp) same ∙ owned
      | inr (steps, free) ↦ ap (λ r. wg.owner r.0.table jp) steps ∙ elim (set-table env key ip s) [
        | inl same ↦ ap (λ t. wg.owner t jp) same ∙ owned
        | inr moved ↦
            ap (λ t. wg.owner t jp) moved
            ∙ law.set_other key ip s.table jp other (apart free) differs owned
      ]
    ]
      where
        apart : IsUnowned env key ip → jp ≢ ip
        apart (inl e) same =
            let h = sym e ∙ read ip ∙ ap (wg.owner s.table) (sym same) ∙ owned in cc
        apart (inr e) same =
            differs
              (some-injective (sym (sym e ∙ read ip ∙ ap (wg.owner s.table) (sym same) ∙ owned)))

    -- A registration that succeeds leaves the address with the peer, and the peer in wg0.conf by
    -- the script.
    pub register-IsOwner :
        (env : RegisterEnv) (key ip : String) (s : Server T)
        → (register_vpn_peer wg env key ip s).1 ≡ registered
        → (wg.owner (register_vpn_peer wg env key ip s).0.table ip ≡ some key)
          × ((register_vpn_peer wg env key ip s).0.conf ≡ some (persist_peer key ip s.conf))
    register-IsOwner env key ip s h = elim (register-steps env key ip s) [
      | inl (bad, same) ↦ elim (bad h) [ ]
      | inr (steps, free) ↦
          let e = steps ∙ set-registered env key ip s (ap (λ r. r.1) (sym steps) ∙ h) in
          (ap (λ r. wg.owner r.0.table ip) e ∙ law.set_owner key ip s.table, ap (λ r. r.0.conf) e)
    ]

    -- An address that the allocation chose registers where the same table is read and the commands
    -- succeed: it is the new peer's, and every other peer keeps its addresses.
    pub allocate-register :
        (iterate : List String → List String)
        → IsWalk iterate
        → (env : RegisterEnv) (key vpn_range ip : String) (cr_used : List String) (s : Server T)
        → IsRead env s
        → env.forwarded ≡ true
        → env.set ≡ true
        → env.persist_error ≡ none
        → allocate_vpn_ip iterate env.dump vpn_range cr_used ≡ chosen ip
        → ((register_vpn_peer wg env key ip s).1 ≡ registered)
          × (wg.owner (register_vpn_peer wg env key ip s).0.table ip ≡ some key)
          × ((jp other : String)
              → other ≢ key
              → wg.owner s.table jp ≡ some other
              → wg.owner (register_vpn_peer wg env key ip s).0.table jp ≡ some other)
    allocate-register iterate walk env key vpn_range ip cr_used s read up set saved found =
        let (unused, free, inside) =
          allocate-unknown iterate walk env.dump vpn_range cr_used found in
        let done = register-succeeds env key ip s up set saved free in
        (
          done,
          (register-IsOwner env key ip s done).0,
          (λ jp other differs owned. register-keeps env key ip s jp other read differs owned),
        )

    -- Where the table cannot be read, the registration that succeeds takes the address from the
    -- peer that holds it.
    pub register_blind-takes :
        (env : RegisterEnv) (key ip other : String) (s : Server T)
        → env.dump ≡ none
        → env.forwarded ≡ true
        → env.set ≡ true
        → env.persist_error ≡ none
        → wg.owner s.table ip ≡ some other
        → ((register_vpn_peer wg env key ip s).1 ≡ registered)
          × (wg.owner (register_vpn_peer wg env key ip s).0.table ip ≡ some key)
    unfolding known_peers lookup_peer
    register_blind-takes env key ip other s blind up set saved owned =
        let done =
          register-succeeds env key ip s up set saved
            (ap (λ d. lookup_peer (known_peers d) ip) blind) in
        (done, (register-IsOwner env key ip s done).0)
