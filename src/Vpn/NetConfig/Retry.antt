-- ===== src/Vpn/NetConfig/Retry.antt =====
-- The retry loop around a change of the NetConfig status: `updateNetConfigStatus` and
-- `cleanupVPNPeer` of internal/controller/ml/nodeprovision_controller.go.
use public_cloud_vm_provisio.Prelude.{
  ℕ, zero, suc, ◌+◌, ◌≡◌, refl, ◌≢◌, ◌⊎◌, inr, Bool, true, arith, String, false,
}
use public_cloud_vm_provisio.Vpn.NetConfig.{
  NetConfigStatus, record_allocation, release_allocation, conflict, Attempt, done,
  too_many_conflicts, retry, update_net_config_status, release_ip,
}
use public_cloud_vm_provisio.Vpn.NetConfig.Release.{record_settled}

-- Nobody else writes between a fetch and its patch.
abbrev pub IsAlone : (ℕ → Attempt) → Type 0
IsAlone attempts = (round : ℕ) (s : NetConfigStatus) → (attempts round).meanwhile s ≡ s

-- The first `n` rounds from `round` on fetch the object and meet a conflict.
abbrev pub AllConflict : (ℕ → Attempt) → ℕ → ℕ → Type 0
AllConflict attempts zero round = Unit
AllConflict attempts (suc n) round =
    ((attempts round).fetched ≡ true)
    × ((attempts round).answer ≡ conflict)
    × AllConflict attempts n (round + 1)

module _ (merge : NetConfigStatus → NetConfigStatus → NetConfigStatus → NetConfigStatus)
    (change : NetConfigStatus → NetConfigStatus) (settled : NetConfigStatus → Bool)
    (attempts : ℕ → Attempt) where
  -- With no other writer, and a merge patch that on its own base gives the modified object, the
  -- loop ends in the changed object when it says so, and in the old one otherwise.
  pub retry_alone :
      ((base modified : NetConfigStatus) → merge base modified base ≡ modified)
      → IsAlone attempts
      → ((s : NetConfigStatus) → settled s ≡ true → change s ≡ s)
      → (left round : ℕ) (s : NetConfigStatus)
      → let (t, result) = retry merge change settled attempts left round s in
        ((result ≡ done) × (t ≡ change s)) ⊎ ((result ≢ done) × (t ≡ s))
  unfolding retry
  retry_alone law alone fixed zero round s = inr (λ e. cc, refl)
  retry_alone law alone fixed (suc left) round s = ground (
    arith,
    alone round s,
    law s (change s),
    fixed s,
    retry_alone law alone fixed left (round + 1) ((attempts round).meanwhile s),
  )

  -- The loop gives up only after a conflict in every round.
  pub retry_gives_up :
      (left round : ℕ) (s : NetConfigStatus)
      → (retry merge change settled attempts left round s).1 ≡ too_many_conflicts
      → AllConflict attempts left round
  unfolding retry
  retry_gives_up zero round s e = tt
  retry_gives_up (suc left) round s e =
      ground (arith, retry_gives_up left (round + 1) ((attempts round).meanwhile s))

module _ (merge : NetConfigStatus → NetConfigStatus → NetConfigStatus → NetConfigStatus)
    (law : (base modified : NetConfigStatus) → merge base modified base ≡ modified)
    (attempts : ℕ → Attempt) (alone : IsAlone attempts) (ip node : String)
    (s : NetConfigStatus) where
  -- With no other writer, `updateNetConfigStatus` reports success with the allocation recorded, and
  -- leaves the status alone otherwise.
  pub update_alone :
      (key : String)
      → let (t, result) = update_net_config_status merge ip key node attempts s in
        ((result ≡ done) × (t ≡ record_allocation ip key node s)) ⊎ ((result ≢ done) × (t ≡ s))
  unfolding update_net_config_status
  update_alone key =
      retry_alone merge _ _ attempts law alone (λ t h. record_settled ip key node t h) 5 0 s

  -- With no other writer, the release of `cleanupVPNPeer` reports success with the node's entries
  -- and the address gone, and leaves the status alone otherwise.
  pub release_alone :
      let (t, result) = release_ip merge node ip attempts s in
      ((result ≡ done) × (t ≡ release_allocation node ip s)) ⊎ ((result ≢ done) × (t ≡ s))
  unfolding release_ip
  release_alone =
      retry_alone merge (release_allocation node ip) (λ t. false) attempts law alone (λ t h. cc) 5 0
        s
