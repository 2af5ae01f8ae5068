-- ===== src/Cluster/Reconcile/Token.antt =====
-- When a control plane that is Ready is reconciled again for its join token.
use public_cloud_vm_provisio.Prelude.{
  ℕ, ◌+◌, ◌-◌, ◌<◌, String, ◌≡◌, refl, ◌∙◌, inl, inr, true, false, Option, some, arith, leb,
  Option-cases, is_empty,
}
use public_cloud_vm_provisio.Cluster.{World, requeue_after, has_value}
use public_cloud_vm_provisio.Cluster.Reconcile.{
  Env, needs_token_refresh, until_refresh, keep_ready, token_refresh_interval,
}

module _ (parse_time : String → Option ℕ) (format_time : ℕ → String) where
  -- A token that is not due has a time of its last renewal, and is due an interval behind it.
  not_due :
      (now : ℕ) (w : World)
      → is_empty w.cluster.status.join_command ≡ false
      → needs_token_refresh parse_time format_time now w ≡ false
      → (text : String) × (t : ℕ) × (w.cluster.annotations.refreshed_at ≡ some text)
        × (parse_time text ≡ some t)
        × (now < t + token_refresh_interval)
  unfolding needs_token_refresh
  not_due now w h e = elim (Option-cases w.cluster.annotations.refreshed_at) [
    | inl f ↦ ground arith
    | inr (text, f) ↦ elim (Option-cases (parse_time text)) [
      | inl g ↦ ground arith
      | inr (t, g) ↦ (text, t, f, g, ground arith)
    ]
  ]

  needs-at :
      (now t : ℕ) (text : String) (w : World)
      → is_empty w.cluster.status.join_command ≡ false
      → w.cluster.annotations.refreshed_at ≡ some text
      → parse_time text ≡ some t
      → needs_token_refresh parse_time format_time now w ≡ leb (t + token_refresh_interval) now
  unfolding needs_token_refresh
  needs-at now t text w h f g = rw (needs_token_refresh, h, f, g) refl

  until-at :
      (now t : ℕ) (text : String) (a : Option String)
      → a ≡ some text
      → parse_time text ≡ some t
      → now < t + token_refresh_interval
      → until_refresh parse_time format_time now a ≡ t + token_refresh_interval - now
  unfolding until_refresh
  until-at now t text a f g k = rw (f, until_refresh, g) (ground arith)

  -- A control plane that is Ready, has its join command and its packages, and whose token is not due, is
  -- reconciled again exactly when it is: at any time `d` before the delay of the result the token is not
  -- due yet, and behind the whole delay it is.
  pub keep_ready-renews :
      (env : Env) (w : World) (d : ℕ)
      → is_empty w.cluster.status.join_command ≡ false
      → has_value w.cluster.annotations.pkg_variants "true" ≡ true
      → needs_token_refresh parse_time format_time env.now w ≡ false
      → d < until_refresh parse_time format_time env.now w.cluster.annotations.refreshed_at
      → (keep_ready parse_time format_time env w ≡ (
        w,
        requeue_after
            (until_refresh parse_time format_time env.now w.cluster.annotations.refreshed_at),
      ))
        × (needs_token_refresh parse_time format_time (env.now + d) w ≡ false)
        × (needs_token_refresh parse_time format_time
              (env.now
                + until_refresh parse_time format_time env.now w.cluster.annotations.refreshed_at)
              w
            ≡ true)
  unfolding keep_ready
  keep_ready-renews env w d h v e k =
      let (text, t, f, g, b) = not_due env.now w h e in
      let u = until_refresh parse_time format_time env.now w.cluster.annotations.refreshed_at in
      let eq : u ≡ t + token_refresh_interval - env.now = until-at env.now t text _ f g b in
      (
        rw (keep_ready, v) refl,
        needs-at (env.now + d) t text w h f g ∙ ground arith,
        needs-at (env.now + u) t text w h f g ∙ ground arith,
      )
