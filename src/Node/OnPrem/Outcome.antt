-- ===== src/Node/OnPrem/Outcome.antt =====
-- What becomes of the goroutine's result: `pollOnPremBootstrap` of
-- internal/controller/ml/nodeprovision_controller.go.
use public_cloud_vm_provisio.Prelude.{
  String, ◌≡◌, ap, ◌∙◌, true, Option, none, some, arith, is_empty,
}
use public_cloud_vm_provisio.Vpn.NetConfig.{done, update_net_config_status}
use public_cloud_vm_provisio.Node.{World, finished, joining, requeue_joining}
use public_cloud_vm_provisio.Node.OnPrem.{OnPremEnv, consume, write_result, poll_on_prem_bootstrap}

poll-consumes :
    (env : OnPremEnv) (w : World) {ip key : String} {failure : Option String}
    → w.np.status.vpn_ip ≡ ""
    → w.job ≡ some (finished ip key failure)
    → poll_on_prem_bootstrap env w ≡ consume env ip key failure w
unfolding poll_on_prem_bootstrap is_empty
poll-consumes env w fresh there =
    let no_ip : is_empty w.np.status.vpn_ip ≡ true = ap is_empty fresh in rw (no_ip, there)

write_result-saved :
    (env : OnPremEnv) (ip : String) (w : World)
    → env.found ≡ true
    → env.saved ≡ true
    → (write_result env ip w).0.stored.status.phase ≡ joining
      × (write_result env ip w).0.stored.status.vpn_ip ≡ ip
      × (write_result env ip w).0.stored.status.ip_address ≡ ip
      × (write_result env ip w).0.job ≡ w.job
      × (write_result env ip w).0.net ≡ w.net
      × (write_result env ip w).1 ≡ requeue_joining
unfolding write_result
write_result-saved env ip w found saved = ground arith

module _ (env : OnPremEnv) (w : World) {ip key : String} (fresh : w.np.status.vpn_ip ≡ "")
    (there : w.job ≡ some (finished ip key none)) where
  settled : World
  settled = record w {
    job = none;
    net = (update_net_config_status env.merge ip key w.np.name env.attempts w.net).0;
  }

  consume-settled :
      env.net_config ≡ true
      → (update_net_config_status env.merge ip key w.np.name env.attempts w.net).1 ≡ done
      → poll_on_prem_bootstrap env w ≡ write_result env ip settled
  unfolding consume settled
  consume-settled present recorded = poll-consumes env w fresh there ∙ rw (present, recorded)

  -- A successful bootstrap, with no VPN address in the status yet, whose allocation is recorded and
  -- whose object is fetched and written: the
  -- result is consumed, the NetConfig has what the recording left, the stored status has the VPN
  -- address, and the resource is joining.
  pub poll-records :
      env.net_config ≡ true
      → (update_net_config_status env.merge ip key w.np.name env.attempts w.net).1 ≡ done
      → env.found ≡ true
      → env.saved ≡ true
      → let (v, result) = poll_on_prem_bootstrap env w in
        v.stored.status.phase ≡ joining
        × v.stored.status.vpn_ip ≡ ip
        × v.stored.status.ip_address ≡ ip
        × v.job ≡ none
        × v.net ≡ (update_net_config_status env.merge ip key w.np.name env.attempts w.net).0
        × result ≡ requeue_joining
  unfolding settled
  poll-records present recorded found saved =
      let e = consume-settled present recorded in
      let (phase, vpn, address, idle, net, answer) =
        write_result-saved env ip settled found saved in
      (
        ap (λ r. r.0.stored.status.phase) e ∙ phase,
        ap (λ r. r.0.stored.status.vpn_ip) e ∙ vpn,
        ap (λ r. r.0.stored.status.ip_address) e ∙ address,
        ap (λ r. r.0.job) e ∙ idle,
        ap (λ r. r.0.net) e ∙ net,
        ap (λ r. r.1) e ∙ answer,
      )
