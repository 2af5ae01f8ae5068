-- ===== src/Node/Steps.antt =====
-- Lemmas on the steps that the handlers of a NodeProvision share.
use public_cloud_vm_provisio.Prelude.{◌≡◌, refl, Bool, true, false, if◌then◌else◌}
use public_cloud_vm_provisio.Node.{World, Result, error, status_update, refetch, save_and}

module _ (P : World × Result → Type 0) where
  -- What holds of each way on holds of the step.
  pub save_and-elim :
      (accepted found : Bool) (next : World → World × Result) (w : World)
      → P (w, error)
      → ((v : World) → v.instances ≡ w.instances → P (next v))
      → P (save_and accepted found next w)
  unfolding save_and
  save_and-elim true found next w refused on = on (status_update true w) refl
  save_and-elim false true next w refused on = on (refetch w) refl
  save_and-elim false false next w refused on = refused

  -- A guard and its two ways
  pub if-elim : (b : Bool) {r s : World × Result} → P r → P s → P (if b then r else s)
  if-elim true yes_way no_way = yes_way
  if-elim false yes_way no_way = no_way
