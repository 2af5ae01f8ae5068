-- ===== src/Node/Joining/Stamp.antt =====
-- What `reconcileJoining` of internal/controller/ml/nodeprovision_controller.go writes on a node.
use public_cloud_vm_provisio.Prelude.{
  String, ◌≡◌, refl, ◌≢◌, Bool, true, false, List, [], ◌∷◌, arith, ◌==◌, eq_iff, if◌then◌else◌,
  drop_if, ◌∙◌, some, is_empty,
}
use public_cloud_vm_provisio.Node.Joining.{
  set_label, stamp, NodeProvision, provider_name, KubeNode, gpu_label,
}
use public_cloud_vm_provisio.Node.Joining.Ready.{get_label, get_label-set_label}

get_label-drop_other :
    (key other : String) (labels : List (String × String))
    → other ≢ key
    → get_label key (drop_if (λ (k, v). k == other) labels) ≡ get_label key labels
unfolding get_label drop_if
get_label-drop_other key other [] differ = refl
get_label-drop_other key other ((k, v) ∷ labels) differ =
    ground (arith, get_label-drop_other key other labels differ, eq_iff k other, eq_iff k key)

get_label-set_other :
    (key other value : String) (labels : List (String × String))
    → other ≢ key
    → get_label key (set_label other value labels) ≡ get_label key labels
unfolding get_label set_label
get_label-set_other key other value labels differ =
    ground (arith, get_label-drop_other key other labels differ, eq_iff other key)

-- A label that is written on one condition, and another key
get_label-if_other :
    (b : Bool) (key other value : String) (labels : List (String × String))
    → other ≢ key
    → get_label key (if b then set_label other value labels else labels) ≡ get_label key labels
get_label-if_other true key other value labels differ =
    get_label-set_other key other value labels differ
get_label-if_other false key other value labels differ = refl

get_label-unless_other :
    (b : Bool) (key other value : String) (labels : List (String × String))
    → other ≢ key
    → get_label key (if b then labels else set_label other value labels) ≡ get_label key labels
get_label-unless_other true key other value labels differ = refl
get_label-unless_other false key other value labels differ =
    get_label-set_other key other value labels differ

differ : (a b : String) → (a == b) ≡ false → a ≢ b
differ a b e same = cc (rw e at (eq_iff a b).1 same)

-- The keys that a stamp writes under a condition or with a value of the hardware
abbrev pub IsPlain : String → Type 0
IsPlain key =
    ("gpu" == key) ≡ false
    × ("infra.dcn.ssu.ac.kr/hardware-type" == key) ≡ false
    × ("infra.dcn.ssu.ac.kr/worker" == key) ≡ false
    × ("hardware-type" == key) ≡ false

-- The four labels that say whose node it is
owned : NodeProvision → List (String × String) → List (String × String)
owned np labels = set_label "ml.dcn.ssu.ac.kr/node-provision-uid" np.uid (
    set_label "ml.dcn.ssu.ac.kr/provider" (provider_name np.spec.provider) (
      set_label "ml.dcn.ssu.ac.kr/node-provision-namespace" np.namespace
        (set_label "ml.dcn.ssu.ac.kr/node-provision" np.name labels)))

stamp-owned :
    (gpu : Bool) (np : NodeProvision) (node : KubeNode) (key : String)
    → IsPlain key
    → get_label key (stamp gpu np node).labels ≡ get_label key (owned np node.labels)
unfolding stamp owned
stamp-owned gpu np node key (on, typed, worker, class) =
    get_label-if_other (gpu_label np) key "gpu" "on" _ (differ "gpu" key on)
    ∙ get_label-set_other key _ _ _ (differ "infra.dcn.ssu.ac.kr/hardware-type" key typed)
    ∙ get_label-set_other key _ _ _ (differ "infra.dcn.ssu.ac.kr/worker" key worker)
    ∙ get_label-unless_other (is_empty np.spec.node_label) key "hardware-type" np.spec.node_label _
        (differ "hardware-type" key class)

stamp-finalizer :
    (gpu : Bool) (np : NodeProvision) (node : KubeNode) → (stamp gpu np node).finalizer ≡ true
unfolding stamp
stamp-finalizer gpu np node = refl

-- After a stamp the node's labels name the resource, its namespace and its UID, the node has the
-- finalizer, and a label that the stamp does not write is as before.
pub stamp-labels :
    (gpu : Bool) (np : NodeProvision) (node : KubeNode) (key : String)
    → IsPlain key
    → ("ml.dcn.ssu.ac.kr/node-provision-uid" == key) ≡ false
    → ("ml.dcn.ssu.ac.kr/provider" == key) ≡ false
    → ("ml.dcn.ssu.ac.kr/node-provision-namespace" == key) ≡ false
    → ("ml.dcn.ssu.ac.kr/node-provision" == key) ≡ false
    → let t = stamp gpu np node in
      get_label "ml.dcn.ssu.ac.kr/node-provision-uid" t.labels ≡ some np.uid
      × get_label "ml.dcn.ssu.ac.kr/node-provision-namespace" t.labels ≡ some np.namespace
      × get_label "ml.dcn.ssu.ac.kr/node-provision" t.labels ≡ some np.name
      × t.finalizer ≡ true
      × get_label key t.labels ≡ get_label key node.labels
unfolding owned
stamp-labels gpu np node key plain no_uid no_provider no_space no_name =
    let uid : String = "ml.dcn.ssu.ac.kr/node-provision-uid" in
    let provider : String = "ml.dcn.ssu.ac.kr/provider" in
    let space : String = "ml.dcn.ssu.ac.kr/node-provision-namespace" in
    let name : String = "ml.dcn.ssu.ac.kr/node-provision" in
    (
      stamp-owned gpu np node uid (refl, refl, refl, refl) ∙ get_label-set_label uid np.uid _,
      stamp-owned gpu np node space (refl, refl, refl, refl)
          ∙ get_label-set_other space uid np.uid _ (differ uid space refl)
          ∙ get_label-set_other space provider _ _ (differ provider space refl)
          ∙ get_label-set_label space np.namespace _,
      stamp-owned gpu np node name (refl, refl, refl, refl)
          ∙ get_label-set_other name uid np.uid _ (differ uid name refl)
          ∙ get_label-set_other name provider _ _ (differ provider name refl)
          ∙ get_label-set_other name space _ _ (differ space name refl)
          ∙ get_label-set_label name np.name _,
      stamp-finalizer gpu np node,
      stamp-owned gpu np node key plain
          ∙ get_label-set_other key uid np.uid _ (differ uid key no_uid)
          ∙ get_label-set_other key provider _ _ (differ provider key no_provider)
          ∙ get_label-set_other key space _ _ (differ space key no_space)
          ∙ get_label-set_other key name _ _ (differ name key no_name),
    )
