-- ===== src/Node/Aws/Defaults.antt =====
-- What `resolveAWSDefaults` of internal/controller/ml/nodeprovision_controller.go makes of a
-- specification.
use public_cloud_vm_provisio.Prelude.{
  String, ◌≡◌, refl, sym, ap, ◌∙◌, ◌≢◌, inl, inr, Bool, true, false, Option, none, some, arith,
  if◌then◌else◌, Bool-cases, is_empty, subst,
}
use public_cloud_vm_provisio.Node.{Spec, AwsConfig}
use public_cloud_vm_provisio.Node.Aws.{
  Answer, ok, err, ◌>>=◌, DefaultsEnv, NetworkConfig, config_of, needs_network, is_nil,
  fill_network, is_complete, resolve_type, ask_if_empty, resolve_network, fill_in,
  resolve_aws_defaults,
}

from_ok : {A : Type 0} → A → Answer A → A
from_ok x (ok y) = y
from_ok x (err msg) = x

from_some : Spec → Option Spec → Spec
from_some s none = s
from_some s (some t) = t

pub ok_inj : {A : Type 0} {x y : A} → ok x ≡ ok y → x ≡ y
unfolding from_ok
ok_inj {x = x} e = ap (from_ok x) e

bind-ok :
    {A B : Type 0} (a : Answer A) (k : A → Answer B) {b : B}
    → (a >>= k) ≡ ok b
    → (x : A) × a ≡ ok x × k x ≡ ok b
bind-ok (ok x) k e = (x, refl, e)
bind-ok (err msg) k e = cc

-- The calls answer with texts that are not empty.
pub record IsNamed (env : DefaultsEnv) : Type 0 where
  pub image : (a : String) → env.image ≡ ok a → is_empty a ≡ false
  pub subnet : (n : NetworkConfig) → env.network ≡ ok n → is_empty n.subnet_id ≡ false
  pub key : (k : String) → env.key_pair ≡ ok k → is_empty k ≡ false

resolve_type-named :
    (env : DefaultsEnv) (old : String) {it : String}
    → resolve_type env old ≡ ok it
    → is_empty it ≡ false
unfolding resolve_type
resolve_type-named env old {it = it} e = ground arith

ask_if_empty-named :
    (old : String) (answer : Answer String) {x : String}
    → ((a : String) → answer ≡ ok a → is_empty a ≡ false)
    → ask_if_empty old answer ≡ ok x
    → is_empty x ≡ false
unfolding ask_if_empty
ask_if_empty-named old answer {x = x} named e = ground (arith, named x)

fill_network-named :
    (cfg : AwsConfig) (n : NetworkConfig)
    → is_empty n.subnet_id ≡ false
    → needs_network (fill_network cfg n) ≡ false
unfolding fill_network
fill_network-named cfg n named = elim (Bool-cases (is_nil cfg.security_group_ids)) [
  | inl e ↦ ground arith
  | inr e ↦ ground arith
]

resolve_network-named :
    (env : DefaultsEnv) (cfg : AwsConfig) {c : AwsConfig}
    → IsNamed env
    → resolve_network env cfg ≡ ok c
    → needs_network c ≡ false
unfolding resolve_network
resolve_network-named env cfg {c = c} named e = elim (Bool-cases (needs_network cfg)) [
  | inr enough ↦
      let kept : resolve_network env cfg ≡ ok cfg = rw (enough, resolve_network) in
      let same : cfg ≡ c = ok_inj (sym kept ∙ e) in
      subst (λ x. needs_network x ≡ false) {x = cfg} {y = c} same enough
  | inl missing ↦
      let asks : resolve_network env cfg ≡ (env.network >>= (λ n. ok (fill_network cfg n))) =
        rw (missing, resolve_network) in
      let asked : (env.network >>= (λ n. ok (fill_network cfg n))) ≡ ok c = sym asks ∙ e in
      let (n, given, made) = bind-ok env.network (λ m. ok (fill_network cfg m)) asked in
      subst (λ x. needs_network x ≡ false) (ok_inj made)
        (fill_network-named cfg n (named.subnet n given))
]

made_complete :
    (spec : Spec) (it ami key : String) (c : AwsConfig)
    → is_empty it ≡ false
    → is_empty ami ≡ false
    → needs_network c ≡ false
    → is_empty key ≡ false
    → is_complete (record spec {
      instance_type = it;
      aws_config = some (record c { ami = ami; key_pair_name = key });
    })
      ≡ true
unfolding is_complete
made_complete spec it ami key c h_it h_ami h_net h_key = ground arith

-- The specification that `fill_in` makes is complete.
fill_in-is_complete :
    (env : DefaultsEnv) (spec : Spec) {filled : Spec}
    → IsNamed env
    → fill_in env spec ≡ ok filled
    → is_complete filled ≡ true
unfolding fill_in
fill_in-is_complete env spec {filled = filled} named e =
    let cfg = config_of spec in
    let (_, _, e₁) = bind-ok env.creds _ e in
    let (it, h_it, e₂) = bind-ok (resolve_type env spec.instance_type) _ e₁ in
    let (_, _, e₃) = bind-ok env.offered _ e₂ in
    let (ami, h_ami, e₄) = bind-ok (ask_if_empty cfg.ami env.image) _ e₃ in
    let (c, h_net, e₅) = bind-ok (resolve_network env cfg) _ e₄ in
    let (key, h_key, e₆) = bind-ok (ask_if_empty cfg.key_pair_name env.key_pair) _ e₅ in
    subst (λ s. is_complete s ≡ true) (ok_inj e₆)
      (made_complete spec it ami key c (resolve_type-named env spec.instance_type h_it)
        (ask_if_empty-named cfg.ami env.image named.image h_ami)
        (resolve_network-named env cfg named h_net)
        (ask_if_empty-named cfg.key_pair_name env.key_pair named.key h_key))

complete-settled :
    (env : DefaultsEnv) (spec : Spec)
    → is_complete spec ≡ true
    → resolve_aws_defaults env spec ≡ ok none
unfolding resolve_aws_defaults
complete-settled env spec e = rw (e, is_complete)

incomplete-asked :
    (env : DefaultsEnv) (spec : Spec)
    → is_complete spec ≡ false
    → resolve_aws_defaults env spec ≡ (
        fill_in env spec >>= (λ f.
          if env.patched
          then ok (some f)
          else err "patching NodeProvision spec with resolved defaults"))
unfolding resolve_aws_defaults
incomplete-asked env spec e = rw (e, is_complete)

some≢none : {s : Spec} → some s ≢ none
some≢none e = cc

patched_inj :
    (b : Bool) {s filled : Spec} (msg : String)
    → (if b then ok (some s) else err msg) ≡ ok (some filled)
    → s ≡ filled
unfolding from_some
patched_inj true {s = s} msg e = ap (from_some s) (ok_inj e)
patched_inj false msg e = cc

-- Where the calls answer with texts that are not empty, a specification that `resolveAWSDefaults`
-- has patched is complete: whatever the calls answer then, the next run patches nothing.
pub resolve_aws_defaults-settles :
    (env later : DefaultsEnv) (spec : Spec) {filled : Spec}
    → IsNamed env
    → resolve_aws_defaults env spec ≡ ok (some filled)
    → resolve_aws_defaults later filled ≡ ok none
resolve_aws_defaults-settles env later spec {filled = filled} named e =
    elim (Bool-cases (is_complete spec)) [
      | inl enough ↦ absurd (some≢none (ok_inj (sym e ∙ complete-settled env spec enough)))
      | inr missing ↦
          let (s, made, end) =
            bind-ok (fill_in env spec) _ (sym (incomplete-asked env spec missing) ∙ e) in
          complete-settled later filled (
            subst (λ t. is_complete t ≡ true) (patched_inj env.patched _ end)
              (fill_in-is_complete env spec named made))
    ]
