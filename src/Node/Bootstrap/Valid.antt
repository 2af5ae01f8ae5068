-- ===== src/Node/Bootstrap/Valid.antt =====
-- The two ways in which provider/aws/cloudinit.go hands the bootstrap script over.
use public_cloud_vm_provisio.Prelude.{
  String, ◌≡◌, refl, ◌⊎◌, inl, inr, true, false, Option-cases, append,
}
use public_cloud_vm_provisio.Kubeadm.{has_minor}
use public_cloud_vm_provisio.Node.Aws.{Answer, ok, err}
use public_cloud_vm_provisio.Node.Bootstrap.{
  CloudInitParams, Scripts, is_version, validate_params, build_user_data, build_startup_script,
}

-- An EC2 instance boots with the encoding of the script that a GCP instance gets for the same
-- parameters; where the latter is an error, with that of a script that fails.
pub user_data-startup_script :
    (scripts : Scripts) (p : CloudInitParams)
    → ((script : String) × (build_startup_script scripts p ≡ ok script)
        × (build_user_data scripts p ≡ scripts.encode script))
      ⊎ ((e : String) × (msg : String) × (build_startup_script scripts p ≡ err e)
          × (build_user_data scripts p ≡ scripts.encode (scripts.failing msg)))
unfolding build_user_data build_startup_script
user_data-startup_script scripts p = elim (Option-cases (validate_params p)) [
  | inr (e, bad) ↦ inr (
    append "invalid cloud-init parameters: " e,
    append "invalid cloud-init parameters: " e,
    rw (build_startup_script, bad),
    rw (build_user_data, bad),
  )
  | inl fine ↦ elim (answer-cases (scripts.render p)) [
    | inl (script, made) ↦
        inl (script, rw (build_startup_script, fine) made, rw (build_user_data, fine, made))
    | inr (e, bad) ↦ inr (
      e,
      append "failed to render cloud-init: " e,
      rw (build_startup_script, fine) bad,
      rw (build_user_data, fine, bad),
    )
  ]
]
  where
    answer-cases :
        (a : Answer String) → ((script : String) × (a ≡ ok script)) ⊎ ((e : String) × (a ≡ err e))
    answer-cases (ok script) = inl (script, refl)
    answer-cases (err e) = inr (e, refl)

-- A version of two parts passes the provisioners' own look at it, and not the script's.
two_parts : (is_version "1.35" ≡ false) × (has_minor "v1.35" ≡ true) × (is_version "1.35.0" ≡ true)
unfolding is_version has_minor
two_parts = (refl, refl, refl)
